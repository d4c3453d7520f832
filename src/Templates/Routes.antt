-- ===== src/Templates/Routes.antt =====
-- The routes of backend/src/api/templates.py.
use proof_arena.Base.{ℕ, String, Bool, false, not, Option, none, some, List, map, nat_beq}
use proof_arena.Base.Result.{Result, ok, err}
use proof_arena.Db.{AgentTemplate, Store}
use proof_arena.Events.{Loads}
use proof_arena.Templates.{TemplateInfo, InfoError, list_templates, get_template_with_flagship_info}

-- an entry of the catalog; the time is written by `isoformat`
pub record CatalogEntry : Type 0 where
  pub template_key : String
  pub template_version : String
  pub description : String
  pub is_deployable : Bool
  pub created_at : String

abbrev pub entry_of : (ℕ → String) → AgentTemplate → CatalogEntry
entry_of isoformat t = record {
  template_key = t.template_key;
  template_version = t.template_version;
  description = t.description;
  is_deployable = not (nat_beq t.is_deployable 0);
  created_at = isoformat t.created_at;
}

-- GET /templates
unfoldable pub get_catalog : (ℕ → String) → Store → List CatalogEntry
unfolding list_templates
get_catalog isoformat db = map (entry_of isoformat) (list_templates db false)

-- the information, the 404, and what is not caught
pub data DetailAnswer : Type 0 where
  detail : TemplateInfo → DetailAnswer
  not_found : DetailAnswer
  raised : InfoError → DetailAnswer

abbrev pub detail_of : Result InfoError (Option TemplateInfo) → DetailAnswer
detail_of (err e) = raised e
detail_of (ok none) = not_found
detail_of (ok (some info)) = detail info

-- GET /templates/{template_key}
unfoldable pub get_template_detail : Loads → Store → String → DetailAnswer
unfolding get_template_with_flagship_info
get_template_detail loads db template_key =
    detail_of (get_template_with_flagship_info loads db template_key)

-- ===== src/Services/Quotes/Fresh.antt =====
-- Which quotes the cache holds, and until when they are fresh.
use proof_arena.Base.{
  ℕ, ◌+◌, ◌*◌, ◌<◌, ◌≡◌, ◌≢◌, ◌↔◌, refl, sym, ap, ◌∙◌, String, true, false, Option, none, some,
  List, [], ◌∷◌, arith, text_equality, eq_refl_true, subst, if_cases, In, or_default, ◌⊎◌, length,
  inl, inr, leb,
}
use text.Mathlib.TextEquality.{eq_iff}
use proof_arena.Base.Int.{ℤ}
use proof_arena.Base.Result.{ok}
use proof_arena.Services.SwapProtocol.{QuoteOption}
use proof_arena.Services.Quotes.{
  Cache, lookup, store, JupiterService, QuoteAnswer, refused, route, new_quote, get_quotes,
  get_cached_quote, max_age_or, is_younger, fresh_at, is_quote_fresh, check_age,
  validate_quote_freshness, keep_young, count_old, clear_stale_quotes,
}

pub lookup-store :
    (id : String) (quote : QuoteOption) (cache : Cache)
    → lookup id (store id quote cache) ≡ some quote
lookup-store id quote [] = rw (eq_refl_true id) refl
lookup-store id quote ((key, old) ∷ rest) =
    ground (arith, lookup-store id quote rest, eq_iff id key)

lookup-store_other :
    (id other : String) (quote : QuoteOption) (cache : Cache)
    → other ≢ id
    → lookup other (store id quote cache) ≡ lookup other cache
lookup-store_other id other quote [] ne = ground (arith, eq_iff other id)
lookup-store_other id other quote ((key, old) ∷ rest) ne = ground (
  arith,
  lookup-store_other id other quote rest ne,
  eq_iff id key,
  eq_iff other key,
  eq_iff other id,
)

-- A quote that was fetched is cached under its id, and it is fresh exactly before its fetch time plus
-- the age that is asked for, which is the service's own where none or 0 is asked for. The quotes with
-- other ids are as they were.
pub get_quotes-is_quote_fresh :
    (s : JupiterService) (answer : QuoteAnswer) (id : String) (now : ℕ)
    (input_mint output_mint : String) (amount slippage_bps : ℤ) {s' : JupiterService}
    {quotes : List QuoteOption} (later : ℕ) (max_age_secs : Option ℕ) (other : String)
    → get_quotes s answer id now input_mint output_mint amount slippage_bps ≡ ok (s', quotes)
    → other ≢ id
    → (quote : QuoteOption) × (quotes ≡ quote ∷ [])
      × (quote.quote_id ≡ id)
      × (get_cached_quote s' id ≡ some quote)
      × ((is_quote_fresh s' later id max_age_secs ≡ true)
          ↔ (later < now + max_age_or s.max_age_secs max_age_secs * 1000000))
      × (get_cached_quote s' other ≡ get_cached_quote s other)
unfolding get_quotes get_cached_quote is_quote_fresh
get_quotes-is_quote_fresh s (refused status body) id now i o amount slippage later max other h ne =
    absurd (cc)
get_quotes-is_quote_fresh s (route data' out) id now i o amount slippage {s'} {quotes} later max
      other h ne =
    let quote = new_quote id now i o amount slippage data' out in
    let same : (record s { quote_cache = store id quote s.quote_cache }) ≡ s' = cc in
    let held = lookup-store id quote s.quote_cache in
    (
      quote,
      cc,
      refl,
      ap (λ (t : JupiterService). lookup id t.quote_cache) (sym same) ∙ held,
      subst
          (λ (t : JupiterService).
            (fresh_at later (max_age_or t.max_age_secs max) (lookup id t.quote_cache) ≡ true)
            ↔ (later < now + max_age_or s.max_age_secs max * 1000000))
          same (rw held (ground arith)),
      ap (λ (t : JupiterService). lookup other t.quote_cache) (sym same)
          ∙ lookup-store_other id other quote s.quote_cache ne,
    )

-- The check that raises before a swap and the test that the validator makes agree: the check passes
-- exactly for a quote that is fresh, and the quote that passes is the cached one.
pub validate_quote_freshness_iff :
    (s : JupiterService) (now : ℕ) (id : String) (max_age_secs : Option ℕ)
    → ((quote : QuoteOption) × (validate_quote_freshness s now id max_age_secs ≡ ok quote)
        × (get_cached_quote s id ≡ some quote))
      ↔ (is_quote_fresh s now id max_age_secs ≡ true)
unfolding validate_quote_freshness is_quote_fresh get_cached_quote
validate_quote_freshness_iff s now id max_age_secs =
    by_entry (max_age_or s.max_age_secs max_age_secs) (lookup id s.quote_cache)
  where
    by_entry :
        (max_age : ℕ) (o : Option QuoteOption)
        → ((quote : QuoteOption) × (check_age id now max_age o ≡ ok quote) × (o ≡ some quote))
          ↔ (fresh_at now max_age o ≡ true)
    by_entry max_age none = ground arith
    by_entry max_age (some quote) = (λ h. ground arith, λ h. (quote, ground arith, refl))

pub validate_quote_freshness-cached :
    (s : JupiterService) (now : ℕ) (id : String) (max_age_secs : Option ℕ) {quote : QuoteOption}
    → validate_quote_freshness s now id max_age_secs ≡ ok quote
    → get_cached_quote s id ≡ some quote
unfolding validate_quote_freshness get_cached_quote
validate_quote_freshness-cached s now id max_age_secs {quote} h =
    by_entry (max_age_or s.max_age_secs max_age_secs) (lookup id s.quote_cache) h
  where
    by_entry :
        (max_age : ℕ) (o : Option QuoteOption)
        → check_age id now max_age o ≡ ok quote
        → o ≡ some quote
    by_entry max_age none h = absurd (cc)
    by_entry max_age (some q) h = ground (arith, h)

-- one more entry in front of a cache whose young entries are kept
module _ (now max_age : ℕ) (entry : String × QuoteOption) (key : String) (quote : QuoteOption)
    (rest : Cache)
    (ih : In entry (keep_young now max_age rest)
      ↔ (In entry rest × (is_younger now max_age entry.1 ≡ true))) where
  dropped :
      leb (quote.fetched_at + max_age * 1000000) now ≡ true
      → (entry ≡ (key, quote)) ⊎ In entry rest
      → is_younger now max_age entry.1 ≡ true
      → In entry (keep_young now max_age rest)
  dropped old (inl e) y =
      let young : is_younger now max_age quote ≡ true =
        subst (λ (p : String × QuoteOption). is_younger now max_age p.1 ≡ true) e y in
      absurd (ground arith)
  dropped old (inr i) y = ih.1 (i, y)

  held :
      leb (quote.fetched_at + max_age * 1000000) now ≡ false
      → (entry ≡ (key, quote)) ⊎ In entry (keep_young now max_age rest)
      → ((entry ≡ (key, quote)) ⊎ In entry rest) × (is_younger now max_age entry.1 ≡ true)
  held young (inl e) = (
    inl e,
    subst (λ (p : String × QuoteOption). is_younger now max_age p.1 ≡ true) (sym e) (ground arith),
  )
  held young (inr i) = (inr (ih.0 i).0, (ih.0 i).1)

  kept :
      (entry ≡ (key, quote)) ⊎ In entry rest
      → is_younger now max_age entry.1 ≡ true
      → (entry ≡ (key, quote)) ⊎ In entry (keep_young now max_age rest)
  kept (inl e) y = inl e
  kept (inr i) y = inr (ih.1 (i, y))

  keep_young-cons :
      In entry (keep_young now max_age ((key, quote) ∷ rest))
      ↔ (((entry ≡ (key, quote)) ⊎ In entry rest) × (is_younger now max_age entry.1 ≡ true))
  keep_young-cons =
      if_cases
        (λ kept.
          In entry kept
          ↔ (((entry ≡ (key, quote)) ⊎ In entry rest) × (is_younger now max_age entry.1 ≡ true)))
        (leb (quote.fetched_at + max_age * 1000000) now)
        (λ old. (λ h. (inr (ih.0 h).0, (ih.0 h).1), λ h. dropped old h.0 h.1))
        (λ young. (λ h. held young h, λ h. kept h.0 h.1))

keep_young_iff :
    (now max_age : ℕ) (entry : String × QuoteOption) (cache : Cache)
    → In entry (keep_young now max_age cache)
      ↔ (In entry cache × (is_younger now max_age entry.1 ≡ true))
keep_young_iff now max_age entry [] = (λ h. absurd h, λ h. absurd h.0)
keep_young_iff now max_age entry ((key, quote) ∷ rest) =
    keep_young-cons now max_age entry key quote rest (keep_young_iff now max_age entry rest)

-- Clearing the stale quotes keeps exactly the cached quotes that are younger than the age that is
-- asked for, or than the service's own where none is, and returns how many it removed.
pub clear_stale_quotes-In :
    (s : JupiterService) (now : ℕ) (max_age_secs : Option ℕ) (entry : String × QuoteOption)
    → (In entry (clear_stale_quotes s now max_age_secs).0.quote_cache ↔ (
        In entry s.quote_cache
        × (is_younger now (or_default max_age_secs s.max_age_secs) entry.1 ≡ true)))
      × (length (clear_stale_quotes s now max_age_secs).0.quote_cache
            + (clear_stale_quotes s now max_age_secs).1
          ≡ length s.quote_cache)
unfolding clear_stale_quotes
clear_stale_quotes-In s now max_age_secs entry =
    let max_age = or_default max_age_secs s.max_age_secs in
    (keep_young_iff now max_age entry s.quote_cache, counted max_age s.quote_cache)
  where
    counted :
        (max_age : ℕ) (cache : Cache)
        → length (keep_young now max_age cache) + count_old now max_age cache ≡ length cache
    counted max_age [] = omega arith
    counted max_age ((key, quote) ∷ rest) = ground (arith, counted max_age rest)

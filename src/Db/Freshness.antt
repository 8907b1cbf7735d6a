-- ===== src/Db/Freshness.antt =====
-- The cached verdict on the standby (src/db.rs `replica_fresh_cached`).
use pgfs.Prelude.{
  ℕ, ◌-◌, ◌<◌, ◌≡◌, ◌⊎◌, inl, inr, refl, sym, ap, ◌∙◌, Bool, true, false, Option, none, some, List,
  [], ◌∷◌, arith, ltb, Bool-cases,
}
use pgfs.Db.Rows.{Result, ok}
use pgfs.Db.Exec.{Db}
use pgfs.Db.Replica.{freshness_ttl_ms, replica_fresh, valid_verdict, replica_fresh_cached}

-- The part of `Db` that the program keeps from one query to the next; the rest is the server's.
pub record Cache : Type 0 where
  pub verdict : Bool
  pub checked_at : Option ℕ

abbrev pub with_cache : Cache → Db → Db
with_cache c s = record s { freshness_cached = c.verdict; freshness_checked_at = c.checked_at }

-- A query for the verdict, at a time, with the server as it is then.
pub record Query : Type 0 where
  pub now_ms : ℕ
  pub server : Db

abbrev pub ask : Query → Cache → Result Bool × Db
ask q c = replica_fresh_cached q.now_ms (with_cache c q.server)

abbrev pub after : Query → Cache → Cache
after q c = record {
  verdict = (ask q c).1.freshness_cached;
  checked_at = (ask q c).1.freshness_checked_at;
}

-- The cache after queries, the last of which is the first of the list.
abbrev pub cache : List Query → Cache
cache [] = record { verdict = false; checked_at = none }
cache (q ∷ qs) = after q (cache qs)

-- One of the queries was made at the time `t` and found the standby caught up.
abbrev pub WasFresh : ℕ → List Query → Type 0
WasFresh t [] = ⊥
WasFresh t (q ∷ qs) = ((q.now_ms ≡ t) × (replica_fresh q.server ≡ true)) ⊎ WasFresh t qs

-- A cached verdict that the standby is fresh comes from a query that found it so.
abbrev IsJustified : Cache → List Query → Type 0
IsJustified c qs = (t : ℕ) → c.checked_at ≡ some t → c.verdict ≡ true → WasFresh t qs

same_fresh : (c : Cache) (s : Db) → replica_fresh (with_cache c s) ≡ replica_fresh s
unfolding replica_fresh
same_fresh c s = refl

valid_cases :
    (now_ms : ℕ) (o : Option ℕ)
    → ((t : ℕ) × (o ≡ some t) × (now_ms - t < freshness_ttl_ms) × (valid_verdict now_ms o ≡ true))
      ⊎ (valid_verdict now_ms o ≡ false)
unfolding valid_verdict
valid_cases now_ms none = inr refl
valid_cases now_ms (some t) = elim (Bool-cases (ltb (now_ms - t) freshness_ttl_ms)) [
  | inl e ↦ inl (t, refl, ground arith, e)
  | inr e ↦ inr e
]

-- The answer is the valid verdict of an earlier query, or it is found now and kept.
ask_cases :
    (q : Query) (c : Cache)
    → ((t : ℕ) × (c.checked_at ≡ some t)
        × (q.now_ms - t < freshness_ttl_ms)
        × (ask q c ≡ (ok c.verdict, with_cache c q.server)))
      ⊎ (ask q c ≡ (
        ok (replica_fresh q.server),
        with_cache
            (record { verdict = replica_fresh q.server; checked_at = some q.now_ms })
            q.server,
      ))
unfolding replica_fresh_cached
ask_cases q c = elim (valid_cases q.now_ms c.checked_at) [
  | inl (t, e, young, valid) ↦ inl (t, e, young, rw (valid, replica_fresh_cached) refl)
  | inr old ↦ inr (rw (old, same_fresh c q.server, replica_fresh_cached) refl)
]

cache-IsJustified : (qs : List Query) → IsJustified (cache qs) qs
cache-IsJustified [] t e v = absurd (cc)
cache-IsJustified (q ∷ qs) t e v = elim (ask_cases q (cache qs)) [
  | inl (t', e', young, same) ↦ inr (
      cache-IsJustified qs t (ap (λ x. x.1.freshness_checked_at) (sym same) ∙ e)
        (ap (λ x. x.1.freshness_cached) (sym same) ∙ v))
  | inr found ↦ inl (
    cc (ap (λ x. x.1.freshness_checked_at) found, e),
    ap (λ x. x.1.freshness_cached) (sym found) ∙ v,
  )
]

-- Whenever, after any queries with any behaviour of the servers, the standby counts as fresh, it was
-- found caught up by a query less than 500 ms ago, by the clock of the program, or is found so now.
pub ask-WasFresh :
    (q : Query) (qs : List Query)
    → (ask q (cache qs)).0 ≡ ok true
    → (t : ℕ) × WasFresh t (q ∷ qs) × (q.now_ms - t < freshness_ttl_ms)
ask-WasFresh q qs h = elim (ask_cases q (cache qs)) [
  | inl (t, e, young, same) ↦
      (t, inr (cache-IsJustified qs t e (cc (ap (λ x. x.0) same, h))), young)
  | inr found ↦ (q.now_ms, inl (refl, cc (ap (λ x. x.0) found, h)), omega arith)
]

-- ===== src/Web/Format/Ages.antt =====
-- The ages that `relative` of web/lib/format.ts shows are near the true ones.
use rebalance_webull.Prelude.{
  ℕ, ◌+◌, ◌*◌, ◌/◌, ◌≤◌, ◌<◌, ◌≡◌, refl, true, some, ◌++◌, Text, codes, arith, ltb, Bool-cases, inl,
  inr,
}
use rebalance_webull.Js.{Runtime, Decimals, Json, exact_limit, time_limit}
use rebalance_webull.Web.Controls.{truthy}
use rebalance_webull.Web.Format.{Display, age_from, relative}

pub data Age : Type 0 where
  just_now : Age
  minutes hours days : ℕ → Age

-- An age in words.
abbrev pub age_text : {N : Type 0} → Runtime N → Age → Text
age_text r just_now = codes "just now"
age_text r (minutes n) = r.text_of_number (r.of_ℕ n) ++ codes "m ago"
age_text r (hours n) = r.text_of_number (r.of_ℕ n) ++ codes "h ago"
age_text r (days n) = r.text_of_number (r.of_ℕ n) ++ codes "d ago"

-- A time of `ms` milliseconds is an age up to half its unit, and half of the smaller units that
-- were rounded before.
abbrev pub IsNear : ℕ → Age → Type 0
IsNear ms just_now = ms < 30_000
IsNear ms (minutes n) = (1 ≤ n) × (n < 60) × (n * 60_000 ≤ ms + 30_000) × (ms < n * 60_000 + 30_000)
IsNear ms (hours n) =
    (1 ≤ n) × (n < 24) × (n * 3_600_000 ≤ ms + 1_830_000) × (ms < n * 3_600_000 + 1_830_000)
IsNear ms (days n) =
    (1 ≤ n) × (n * 86_400_000 ≤ ms + 45_030_000) × (ms < n * 86_400_000 + 45_030_000)

-- The whole number nearest to `m / n`, the greater of two.
abbrev pub nearest : ℕ → ℕ → ℕ
nearest m n = (2 * m + n) / (2 * n)

module _ {N : Type 0} ⦃r : Runtime N⦄ (d : Decimals N r) where
  age_from-IsNear :
      (ms : ℕ)
      → ms ≤ time_limit
      → (age : Age) × (age_from d (r.of_ℕ ms) ≡ age_text r age) × IsNear ms age
  unfolding age_from
  age_from-IsNear ms h =
      let m = nearest ms 60_000 in
      let k = nearest m 60 in
      let n = nearest k 24 in
      let m_small : m ≤ exact_limit = omega arith in
      let k_small : k ≤ exact_limit = omega arith in
      let minutes_eq = d.round-div ms 60_000 h (omega arith) (omega arith) in
      let hours_eq = d.round-div m 60 (omega (arith, m_small)) (omega arith) (omega arith) in
      let days_eq = d.round-div k 24 (omega (arith, k_small)) (omega arith) (omega arith) in
      let below_1 = r.lt-of_ℕ m 1 m_small (omega arith) in
      let below_60 = r.lt-of_ℕ m 60 (omega (arith, m_small)) (omega arith) in
      let below_24 = r.lt-of_ℕ k 24 k_small (omega arith) in
      elim (Bool-cases (ltb m 1)) [
        | inl a ↦ (just_now, rw (minutes_eq, below_1, a) refl, ground arith)
        | inr a ↦ elim (Bool-cases (ltb m 60)) [
          | inl b ↦ (minutes m, rw (minutes_eq, below_1, a, below_60, b) refl, ground arith)
          | inr b ↦ elim (Bool-cases (ltb k 24)) [
            | inl c ↦ (
              hours k,
              rw (minutes_eq, hours_eq, below_1, a, below_60, b, below_24, c) refl,
              ground arith,
            )
            | inr c ↦ (
              days n,
              rw (minutes_eq, hours_eq, days_eq, below_1, a, below_60, b, below_24, c) refl,
              ground arith,
            )
          ]
        ]
      ]

  -- A time at most 10 ^ 13 milliseconds ago is shown as an age near the true one.
  pub relative-IsNear :
      (p : Display N) (value : Json N) (ms : ℕ)
      → truthy (some value) ≡ true
      → d.sub p.now (p.time_of value) ≡ r.of_ℕ ms
      → ms ≤ time_limit
      → (age : Age) × (relative d p (some value) ≡ age_text r age) × IsNear ms age
  unfolding relative
  relative-IsNear p value ms there past small =
      let (age, text, near) = age_from-IsNear ms small in (age, rw (there, past) text, near)

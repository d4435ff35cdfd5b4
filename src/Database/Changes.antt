-- ===== src/Database/Changes.antt =====
-- What an update or a delete of a row of public.bots leaves, supabase/migrations.
use mathlib.Core.Path.{subst}
use rebalance_webull.Prelude.{
  ◌≡◌, inl, inr, refl, true, false, List, [], ◌∷◌, All, Text, text_eq, any, arith,
}
use rebalance_webull.Database.Rows.{Postgres, BotRecord, TargetRecord, is_bot, has_id, targets_of}
use rebalance_webull.Database.Inversion.{Changed}
use rebalance_webull.Database.Owners.{others_bots}
use rebalance_webull.Database.Consistent.{Keyed, Owns, IsSound, IsSound-elsewhere, not_owned}

module _ (user id : Text) (P : BotRecord → BotRecord → Type 0) where
  Changed-has_id :
      (x : Text) (bs cs : List BotRecord)
      → Changed user id P bs cs
      → any (has_id x) cs ≡ any (has_id x) bs
  Changed-has_id x [] [] h = refl
  Changed-has_id x [] (c ∷ cs) h = absurd h
  Changed-has_id x (b ∷ bs) [] h = absurd h
  Changed-has_id x (b ∷ bs) (c ∷ cs) (i, u, w, rest) = rw (i, Changed-has_id x bs cs rest) refl

  pub Changed-is_bot :
      (owner x : Text) (bs cs : List BotRecord)
      → Changed user id P bs cs
      → any (is_bot owner x) cs ≡ any (is_bot owner x) bs
  Changed-is_bot owner x [] [] h = refl
  Changed-is_bot owner x [] (c ∷ cs) h = absurd h
  Changed-is_bot owner x (b ∷ bs) [] h = absurd h
  Changed-is_bot owner x (b ∷ bs) (c ∷ cs) (i, u, w, rest) =
      rw (i, u, Changed-is_bot owner x bs cs rest) refl

  pub Changed-Keyed : (bs cs : List BotRecord) → Changed user id P bs cs → Keyed bs → Keyed cs
  Changed-Keyed [] [] h k = tt
  Changed-Keyed [] (c ∷ cs) h k = absurd h
  Changed-Keyed (b ∷ bs) [] h k = absurd h
  Changed-Keyed (b ∷ bs) (c ∷ cs) (i, u, w, rest) k =
      let none_later : any (has_id c.id) cs ≡ false = rw (i, Changed-has_id b.id bs cs rest) k.0 in
      (none_later, Changed-Keyed bs cs rest k.1)

  pub Changed-others :
      (bs cs : List BotRecord) → Changed user id P bs cs → others_bots user cs ≡ others_bots user bs
  Changed-others [] [] h = refl
  Changed-others [] (c ∷ cs) h = absurd h
  Changed-others (b ∷ bs) [] h = absurd h
  Changed-others (b ∷ bs) (c ∷ cs) (i, u, inl (other, same), rest) =
      subst (λ x. others_bots user (x ∷ cs) ≡ others_bots user (b ∷ bs)) same
        (rw (Changed-others bs cs rest) refl)
  Changed-others (b ∷ bs) (c ∷ cs) (i, u, inr (here, p), rest) =
      let own : text_eq user b.user_id ≡ true = ground (arith, here) in
      let own_still : text_eq user c.user_id ≡ true = rw u own in
      rw (own, own_still) (Changed-others bs cs rest)

  module _ {N : Type 0} (pg : Postgres N) where
    pub Changed-IsSound :
        (S : BotRecord → Type 0) (ts us : List TargetRecord)
        → ((b : BotRecord) → S b → IsSound pg b ts)
        → ((b c : BotRecord)
            → is_bot user id b ≡ true
            → c.id ≡ b.id
            → P b c
            → S b
            → IsSound pg c us)
        → ((x : Text) → text_eq id x ≡ false → targets_of x us ≡ targets_of x ts)
        → (bs cs : List BotRecord) → Changed user id P bs cs
        → Owns user id bs
        → All S bs
        → All (λ c. IsSound pg c us) cs
    Changed-IsSound S ts us w k e [] [] h o s = tt
    Changed-IsSound S ts us w k e [] (c ∷ cs) h o s = absurd h
    Changed-IsSound S ts us w k e (b ∷ bs) [] h o s = absurd h
    Changed-IsSound S ts us w k e (b ∷ bs) (c ∷ cs) (i, u, inl (other, same), rest) o s =
        let elsewhere : text_eq id b.id ≡ false = not_owned user id b o.0 other in
        (
          subst (λ x. IsSound pg x us) same
              (IsSound-elsewhere pg b ts us (e b.id elsewhere) (w b s.0)),
          Changed-IsSound S ts us w k e bs cs rest o.1 s.1,
        )
    Changed-IsSound S ts us w k e (b ∷ bs) (c ∷ cs) (i, u, inr (here, p), rest) o s =
        (k b c here i p s.0, Changed-IsSound S ts us w k e bs cs rest o.1 s.1)

-- ===== src/Web/Editor/Rows.antt =====
-- The rows that the form for a new bot can come to hold, web/components/bot-form.tsx.
use rebalance_webull.Prelude.{
  ℕ, zero, suc, ◌≤◌, ◌≡◌, refl, ap, sym, ◌∙◌, true, false, List, [], ◌∷◌, ◌++◌, Text, text_eq,
  text_eq-sym, any, length, length-append, length-map, map, codes, arith,
}
use rebalance_webull.Js.{Runtime, Decimals}
use rebalance_webull.Web.Editor.{
  TargetRow, FormState, opened, set_row, remove_row, split_rows, Edit, type_symbol, type_percent,
  press_remove, press_add_holding, press_split_evenly, is_offered, edited, new_row,
}

-- The keys that React gives the rows.
abbrev pub ids : List TargetRow → List Text
ids rows = map (λ row. row.id) rows

abbrev pub IsDistinct : List Text → Type 0
IsDistinct [] = Unit
IsDistinct (t ∷ ts) = (any (text_eq t) ts ≡ false) × IsDistinct ts

-- An id that is minted is not that of a row on the page.
abbrev pub IsMinted : Edit → FormState → Type 0
IsMinted (press_add_holding id) s = any (text_eq id) (ids s.targets) ≡ false
IsMinted _ s = Unit

module _ {N : Type 0} ⦃r : Runtime N⦄ (d : Decimals N r) where
  -- The user works an enabled control.
  pub data Step (s : FormState) : FormState → Type 0 where
    work : (edit : Edit) → is_offered s edit ≡ true → IsMinted edit s → Step s (edited d edit s)

  pub data Reach (s : FormState) : FormState → Type 0 where
    here : Reach s s
    next : {t u : FormState} → Reach s t → Step t u → Reach s u

abbrev pub IsKeyed : List TargetRow → Type 0
IsKeyed rows = (1 ≤ length rows) × (length rows ≤ 50) × IsDistinct (ids rows)

-- A change of a row that keeps its id keeps all the ids.
ids-set_row :
    (patch : TargetRow → TargetRow) (index : ℕ) (rows : List TargetRow)
    → ((row : TargetRow) → (patch row).id ≡ row.id)
    → ids (set_row patch index rows) ≡ ids rows
unfolding set_row
ids-set_row patch index [] h = refl
ids-set_row patch zero (row ∷ rows) h = ap (λ t. t ∷ ids rows) (h row)
ids-set_row patch (suc index) (row ∷ rows) h =
    ap (λ ts. row.id ∷ ts) (ids-set_row patch index rows h)

-- Rows with the ids of keyed rows are keyed.
IsKeyed-ids : (rows more : List TargetRow) → ids more ≡ ids rows → IsKeyed rows → IsKeyed more
IsKeyed-ids rows more same (low, high, distinct) =
    let count : length more ≡ length rows =
      sym (length-map (λ row. row.id) more) ∙ ap length same ∙ length-map (λ row. row.id) rows in
    (omega (arith, count), omega (arith, count), rw same distinct)

any-remove_row :
    (t : Text) (index : ℕ) (rows : List TargetRow)
    → any (text_eq t) (ids rows) ≡ false
    → any (text_eq t) (ids (remove_row index rows)) ≡ false
unfolding remove_row
any-remove_row t index [] h = h
any-remove_row t zero (row ∷ rows) h = ground arith
any-remove_row t (suc index) (row ∷ rows) h = ground (arith, any-remove_row t index rows)

IsDistinct-remove_row :
    (index : ℕ) (rows : List TargetRow)
    → IsDistinct (ids rows)
    → IsDistinct (ids (remove_row index rows))
unfolding remove_row
IsDistinct-remove_row index [] h = h
IsDistinct-remove_row zero (row ∷ rows) (new, h) = h
IsDistinct-remove_row (suc index) (row ∷ rows) (new, h) =
    (any-remove_row row.id index rows new, IsDistinct-remove_row index rows h)

length-remove_row :
    (index : ℕ) (rows : List TargetRow)
    → (length (remove_row index rows) ≤ length rows)
      × (length rows ≤ suc (length (remove_row index rows)))
unfolding remove_row
length-remove_row index [] = (omega arith, omega arith)
length-remove_row zero (row ∷ rows) = (omega arith, omega arith)
length-remove_row (suc index) (row ∷ rows) =
    let (below, above) = length-remove_row index rows in (omega arith, omega arith)

any-append-new :
    (t : Text) (rows : List TargetRow) (row : TargetRow)
    → any (text_eq t) (ids rows) ≡ false
    → text_eq t row.id ≡ false
    → any (text_eq t) (ids (rows ++ (row ∷ []))) ≡ false
any-append-new t [] row h k = rw k refl
any-append-new t (first ∷ rows) row h k = ground (arith, any-append-new t rows row)

IsDistinct-append-new :
    (rows : List TargetRow) (row : TargetRow)
    → IsDistinct (ids rows)
    → any (text_eq row.id) (ids rows) ≡ false
    → IsDistinct (ids (rows ++ (row ∷ [])))
IsDistinct-append-new [] row h k = (refl, tt)
IsDistinct-append-new (first ∷ rows) row (new, h) k =
    let other : text_eq first.id row.id ≡ false = text_eq-sym first.id row.id ∙ ground (arith, k) in
    (
      any-append-new first.id rows row new other,
      IsDistinct-append-new rows row h (ground (arith, k)),
    )

ids-map-with :
    (f : TargetRow → TargetRow) (rows : List TargetRow)
    → ((row : TargetRow) → (f row).id ≡ row.id)
    → ids (map f rows) ≡ ids rows
ids-map-with f [] h = refl
ids-map-with f (row ∷ rows) h = rw (h row, ids-map-with f rows h)

module _ {N : Type 0} ⦃r : Runtime N⦄ (d : Decimals N r) where
  ids-split_rows : (count : ℕ) (rows : List TargetRow) → ids (split_rows d count rows) ≡ ids rows
  unfolding split_rows
  ids-split_rows count [] = refl
  ids-split_rows count (row ∷ rows) = ap (λ ts. row.id ∷ ts) (ids-map-with _ rows (λ row. refl))

  IsKeyed-edited :
      (edit : Edit) (s : FormState)
      → is_offered s edit ≡ true
      → IsMinted edit s
      → IsKeyed s.targets
      → IsKeyed (edited d edit s).targets
  unfolding edited is_offered
  IsKeyed-edited (type_symbol index text) s offered minted keyed =
      IsKeyed-ids s.targets _ (ids-set_row _ index s.targets (λ row. refl)) keyed
  IsKeyed-edited (type_percent index text) s offered minted keyed =
      IsKeyed-ids s.targets _ (ids-set_row _ index s.targets (λ row. refl)) keyed
  IsKeyed-edited press_split_evenly s offered minted keyed =
      IsKeyed-ids s.targets _ (ids-split_rows (length s.targets) s.targets) keyed
  IsKeyed-edited (press_remove index) s offered minted (low, high, distinct) =
      let (below, above) = length-remove_row index s.targets in
      let several : 2 ≤ length s.targets = ground arith in
      (omega arith, omega arith, IsDistinct-remove_row index s.targets distinct)
  IsKeyed-edited (press_add_holding id) s offered minted (low, high, distinct) =
      let count = length-append s.targets (new_row id [] (codes "0") ∷ []) in
      let few : length s.targets ≤ 49 = ground arith in
      (omega arith, omega arith, IsDistinct-append-new s.targets _ distinct minted)
  IsKeyed-edited _ s offered minted keyed = keyed

  -- Whatever the user does with the enabled controls of the form, it has from 1 to 50 rows, and
  -- no two with one key, if the three keys it opened with are distinct and each minted key is
  -- none of those on the page.
  pub Reach-IsKeyed :
      (a b c : Text) {s : FormState}
      → IsDistinct (a ∷ b ∷ c ∷ [])
      → Reach d (opened a b c) s
      → IsKeyed s.targets
  Reach-IsKeyed a b c distinct here = (omega arith, omega arith, distinct)
  Reach-IsKeyed a b c distinct (next reached (work edit offered minted)) =
      IsKeyed-edited edit _ offered minted (Reach-IsKeyed a b c distinct reached)

-- ===== src/Backup/Names.antt =====
-- The loop that renames an imported server ends with a name that no server has.
use lo_ra_dbase.Common.{
  ℕ, zero, suc, ◌+◌, ◌≤◌, ◌<◌, Char, code, String, ◌≡◌, refl, sym, ap, ◌∙◌, ◌≢◌, ◌⊎◌, inl, inr,
  Bool, none, List, [], ◌∷◌, arith, ltb, ◌==◌, nat_eq, string_eq, Bool-cases, Option-cases, length,
}
use Prim.Native.String.append
use Prim.Native.String.{[], ◌∷◌, ◌++◌ as append_text}
use lo_ra_dbase.Text.Decimal.{decimal, decimal-injective}
use lo_ra_dbase.Table.{count, delete}
use lo_ra_dbase.Table.Laws.{count-zero_iff, length-delete}
use lo_ra_dbase.Table.Keys.{by_key, by_key-delete_ne}
use lo_ra_dbase.Db.{Db, Server}
use lo_ra_dbase.Servers.{find_by_name}
use lo_ra_dbase.Backup.{candidate, free_name, server_name}

append-cancel_left : (p s t : String) → append_text p s ≡ append_text p t → s ≡ t
append-cancel_left [] s t h = sym (append.nil s) ∙ h ∙ append.nil t
append-cancel_left (c ∷ p) s t h =
    let e : c ∷ append_text p s ≡ c ∷ append_text p t =
      sym (append.cons c p s) ∙ h ∙ append.cons c p t in
    append-cancel_left p s t (cc e)

append-not_empty : (p : String) (c : Char) → append_text p (c ∷ []) ≢ []
append-not_empty [] c h = let e : c ∷ [] ≡ [] = sym (append.nil (c ∷ [])) ∙ h in absurd (cc e)
append-not_empty (d ∷ p) c h =
    let e : d ∷ append_text p (c ∷ []) ≡ [] = sym (append.cons d p (c ∷ [])) ∙ h in absurd (cc e)

append-cancel_right :
    (p q : String) (c : Char) → append_text p (c ∷ []) ≡ append_text q (c ∷ []) → p ≡ q
append-cancel_right [] [] c h = refl
append-cancel_right [] (d ∷ q) c h =
    let e : c ∷ [] ≡ d ∷ append_text q (c ∷ []) =
      sym (append.nil (c ∷ [])) ∙ h ∙ append.cons d q (c ∷ []) in
    let tail : [] ≡ append_text q (c ∷ []) = cc e in absurd (append-not_empty q c (sym tail))
append-cancel_right (d ∷ p) [] c h =
    let e : d ∷ append_text p (c ∷ []) ≡ c ∷ [] =
      sym (append.cons d p (c ∷ [])) ∙ h ∙ append.nil (c ∷ []) in
    let tail : append_text p (c ∷ []) ≡ [] = cc e in absurd (append-not_empty p c tail)
append-cancel_right (d ∷ p) (b ∷ q) c h =
    let e : d ∷ append_text p (c ∷ []) ≡ b ∷ append_text q (c ∷ []) =
      sym (append.cons d p (c ∷ [])) ∙ h ∙ append.cons b q (c ∷ []) in
    let head : d ≡ b = cc e in
    let tail : append_text p (c ∷ []) ≡ append_text q (c ∷ []) = cc e in
    let same = append-cancel_right p q c tail in cc (head, same)

abbrev first_code : String → ℕ
first_code [] = 0
first_code (c ∷ s) = code c

closing_is_no_dash : (s : String) → ")" ≢ append_text "-" s
closing_is_no_dash s h =
    let e : ")" ≡ "-" ∷ s =
      h ∙ append.cons "-" [] s ∙ ap (λ (t : String). "-" ∷ t) (append.nil s) in
    let codes : 41 ≡ 45 = ap first_code e in omega (arith, codes)

module _ (name day : String) where
  tail_of : ℕ → String
  tail_of zero = ")"
  tail_of (suc n) = append_text "-" (append_text (decimal (suc n)) ")")

  candidate-tail :
      (k : ℕ)
      → candidate name day k ≡ append_text name (append_text " (" (append_text day (tail_of k)))
  unfolding candidate tail_of
  candidate-tail zero = refl
  candidate-tail (suc n) = refl

  same_tail : (i j : ℕ) → candidate name day i ≡ candidate name day j → tail_of i ≡ tail_of j
  same_tail i j h = append-cancel_left day (tail_of i) (tail_of j) (
      append-cancel_left " (" _ _
        (append-cancel_left name _ _ (sym (candidate-tail i) ∙ h ∙ candidate-tail j)))

  tail_of-injective : (i j : ℕ) → tail_of i ≡ tail_of j → i ≡ j
  unfolding tail_of
  tail_of-injective zero zero h = refl
  tail_of-injective zero (suc j) h = absurd (closing_is_no_dash _ h)
  tail_of-injective (suc i) zero h = absurd (closing_is_no_dash _ (sym h))
  tail_of-injective (suc i) (suc j) h =
      decimal-injective (suc i) (suc j)
        (append-cancel_right (decimal (suc i)) (decimal (suc j)) ")" (append-cancel_left "-" _ _ h))

  -- Different turns of the loop try different names.
  candidate-injective : (i j : ℕ) → candidate name day i ≡ candidate name day j → i ≡ j
  candidate-injective i j h = tail_of-injective i j (same_tail i j h)

  -- As many candidates as are taken in a row, so many servers there are.
  pigeonhole :
      (fuel k : ℕ) (rows : List Server)
      → ((i : ℕ)
          → k ≤ i
          → i < k + fuel
          → by_key (λ (s : Server). s.name) (candidate name day i) rows ≢ none)
      → fuel ≤ length rows
  pigeonhole zero k rows taken = omega arith
  pigeonhole (suc fuel) k rows taken =
      let test : Server → Bool = λ s. s.name == candidate name day k in
      let rest = delete test rows in
      let some_row : 1 ≤ count test rows = elim (Bool-cases (ltb 0 (count test rows))) [
        | inl t ↦ ground (arith, t)
        | inr f ↦
            absurd (
              taken k (omega arith) (omega arith)
                ((count-zero_iff test rows).0 (ground (arith, f))))
      ] in
      let fewer = pigeonhole fuel (suc k) rest (λ i after before absent.
        taken i (omega (arith, after)) (omega (arith, before)) (
          sym (
            by_key-delete_ne (λ (s : Server). s.name) (candidate name day k) (candidate name day i)
              rows (λ e. let same = candidate-injective k i e in omega (arith, after, same)))
          ∙ absent)) in
      omega (arith, fewer, some_row, length-delete test rows)

  free_or_taken :
      (fuel k : ℕ) (db : Db)
      → (find_by_name (free_name fuel name day k db) db ≡ none)
        ⊎ ((i : ℕ) → k ≤ i → i < k + fuel → find_by_name (candidate name day i) db ≢ none)
  unfolding free_name
  free_or_taken zero k db = inr (λ i after before. absurd (omega (arith, after, before)))
  free_or_taken (suc fuel) k db = elim (Option-cases (find_by_name (candidate name day k) db)) [
    | inl absent ↦ inl (rw (absent, free_name) absent)
    | inr (s, found) ↦ elim (free_or_taken fuel (suc k) db) [
      | inl free ↦ inl (rw (found, free_name) free)
      | inr taken ↦ inr (λ i after before absent. elim (Bool-cases (i == k)) [
        | inl t ↦
            let same : i ≡ k = ground arith in
            let here : find_by_name (candidate name day k) db ≡ none = rw (← same) absent in
            cc (here, found)
        | inr f ↦ taken i (ground (arith, after, f)) (omega (arith, before)) absent
      ])
    ]
  ]

-- The name under which a merge imports a server is free: the loop that appends the date and a counter
-- always ends, whatever the names in the database are.
pub server_name-free :
    (name day : String) (db : Db) → find_by_name (server_name name day db) db ≡ none
unfolding server_name
server_name-free name day db = elim (Option-cases (find_by_name name db)) [
  | inl absent ↦ rw (absent, server_name) absent
  | inr (s, found) ↦
      rw (found, server_name)
        (elim (free_or_taken name day (suc (length db.servers)) 0 db) [
          | inl free ↦ free
          | inr taken ↦
              let many =
                pigeonhole name day (suc (length db.servers)) 0 db.servers
                  (unfold find_by_name in taken) in
              absurd (omega (arith, many))
        ])
]

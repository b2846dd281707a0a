-- ===== src/NamedExp/Meaning.antt =====
-- What merging and extending constraints mean in a model.
use count_buffy.Prelude.{
  true, ℕ, ◌<◌, ◌↔◌, List, [], ◌∷◌, ◌++◌, map, Text, length, arith, All-get, All-of_get, All-append,
}
use count_buffy.Z3.{Z3, Holds, true_holds, conj_loop_iff}
use count_buffy.NamedExp.{NamedExp, named, exp_at, merge, merge_in, extend_suffixed, Sat}
use count_buffy.Vec.Meaning.{from_one}

module _ ⦃z : Z3⦄ (m : z.Model) where
  pub Sat-append : (xs ys : List NamedExp) → Sat m (xs ++ ys) ↔ (Sat m xs × Sat m ys)
  Sat-append = All-append (λ ne. Holds m ne.e)

  pub Sat-exp_at :
      (nes : List NamedExp) → Sat m nes ↔ ((i : ℕ) → i < length nes → Holds m (exp_at nes i))
  Sat-exp_at nes =
      (λ h i b. All-get (λ ne. Holds m ne.e) nes i _ h b, All-of_get (λ ne. Holds m ne.e) nes _)

  -- A merged constraint holds exactly when all of them do.
  pub merge_in_iff : (nes : List NamedExp) (name : Text) → Holds m (merge_in nes name).e ↔ Sat m nes
  unfolding merge_in
  merge_in_iff nes name =
      let rounds = conj_loop_iff m (exp_at nes) (z.bool_val true) 0 (length nes) in
      let entries = Sat-exp_at nes in
      (
        λ h. entries.1 (λ i b. (rounds.0 h).1 i (omega arith) b),
        λ h. rounds.1 (true_holds m, λ i lo hi. entries.0 h i hi),
      )

  -- The constraint that `merge` makes of a list with at least one constraint holds in a model
  -- exactly when all of the list do.
  pub merge_iff :
      (ne : NamedExp) (nes : List NamedExp) (name : Text)
      → Holds m (merge (ne ∷ nes) name).e ↔ Sat m (ne ∷ nes)
  unfolding merge
  merge_iff ne nes name =
      let all = ne ∷ nes in
      let rounds = conj_loop_iff m (exp_at all) (exp_at all 0) 1 (length all) in
      let entries = Sat-exp_at all in
      let first = from_one (λ i. Holds m (exp_at all i)) (length all) (omega arith) in
      (λ h. entries.1 (first.0 (rounds.0 h)), λ h. rounds.1 (first.1 (entries.0 h)))

  Sat-renamed :
      (extra : List NamedExp) (f : Text → Text)
      → Sat m (map (λ item. named item.e (f item.name)) extra) ↔ Sat m extra
  Sat-renamed [] f = (λ h. h, λ h. h)
  Sat-renamed (x ∷ xs) f =
      let rest = Sat-renamed xs f in (λ h. (h.0, rest.0 h.1), λ h. (h.0, rest.1 h.1))

  pub extend_suffixed_iff :
      (source extra : List NamedExp) (suffix : Text)
      → Sat m (extend_suffixed source extra suffix) ↔ (Sat m source × Sat m extra)
  unfolding extend_suffixed
  extend_suffixed_iff source extra suffix =
      let parts = All-append (λ ne. Holds m ne.e) source _ in
      let same = Sat-renamed extra (λ n. n ++ suffix) in
      (λ h. ((parts.0 h).0, same.0 (parts.0 h).1), λ h. parts.1 (h.0, same.1 h.1))

-- ===== src/Leaf/Turns/Recorded.antt =====
-- The matches that `LeafSts` keeps for each buffer, an entry for each step (`init` and `trs` of
-- src/leaf_spine/leaf_sts.cpp).

use count_buffy.Prelude.{
  ℕ, zero, suc, ◌+◌, ◌-◌, ◌<◌, ◌≡◌, ◌⊎◌, refl, sym, ◌∙◌, ap, subst, inl, inr, false, List, [], ◌∷◌,
  ◌++◌, arith, none, some, length, get_or, length-append, loop, range_from,
}
use count_buffy.Prelude.{
  nat_key, pair_key, Map, find, find_or, find_or-assign, KeysDiffer, found_head, missing_head,
}
use count_buffy.Z3.{Z3}
use count_buffy.Vec.{Bv, bit}
use count_buffy.Leaf.Buffs.{LeafBuff}
use count_buffy.Leaf.Switch.{Switch, src_map_per_dst, dst_map_per_src}
use count_buffy.Leaf.Base
use count_buffy.Leaf.Turns.{Turns, push_at, match_at, push_matches, init, trs, leaf_sts, no_turns}

module _ {ℓ} {A : Type ℓ} where
  get_or-append_left :
      (xs ys : List A) (i : ℕ) (d : A) → i < length xs → get_or (xs ++ ys) i d ≡ get_or xs i d
  get_or-append_left [] ys i d b = absurd (omega arith)
  get_or-append_left (x ∷ xs) ys zero d b = refl
  get_or-append_left (x ∷ xs) ys (suc i) d b = get_or-append_left xs ys i d (omega arith)

  get_or-last : (xs : List A) (x d : A) → get_or (xs ++ (x ∷ [])) (length xs) d ≡ x
  get_or-last [] x d = refl
  get_or-last (y ∷ xs) x d = get_or-last xs x d

earlier_or_last : (t n : ℕ) → t < suc n → (t < n) ⊎ (t ≡ n)
earlier_or_last t n b = ground arith

module _ ⦃z : Z3⦄ where
  last_entry :
      (v : Bv) (t n : ℕ) (e e' : z.BoolExpr)
      → t ≡ n
      → length v ≡ n
      → e ≡ e'
      → bit (v ++ (e ∷ [])) t ≡ e'
  last_entry v t n e e' last size same =
      ap (λ i. bit (v ++ (e ∷ [])) i) (last ∙ sym size) ∙ (get_or-last v e z.undefined_bool ∙ same)

  abbrev pub matches_of : Turns → ℕ × ℕ → Bv
  matches_of st key = find_or st.matched key []

  kept_matches :
      {A : Type 0} (f : Turns → A → Turns)
      → ((st : Turns) (x : A) → (f st x).matched ≡ st.matched)
      → (xs : List A) (st : Turns) → (loop f st xs).matched ≡ st.matched
  kept_matches f h [] st = refl
  kept_matches f h (x ∷ xs) st = kept_matches f h xs (f st x) ∙ h st x

  abbrev pushed : Turns → ℕ → ℕ × ℕ → LeafBuff → Turns
  pushed st t key buff = record st { matched = push_at key (match_at st t key buff) st.matched }

  pushed-other :
      (st : Turns) (t : ℕ) (key k : ℕ × ℕ) (buff : LeafBuff)
      → pair_key.same k key ≡ false
      → matches_of (pushed st t key buff) k ≡ matches_of st k
  pushed-other st t key k buff e =
      find_or-assign st.matched key k (matches_of st key ++ (match_at st t key buff ∷ [])) []
      ∙ rw e refl

  pushed-at :
      (st : Turns) (t : ℕ) (k : ℕ × ℕ) (buff : LeafBuff)
      → matches_of (pushed st t k buff) k ≡ matches_of st k ++ (match_at st t k buff ∷ [])
  pushed-at st t k buff =
      find_or-assign st.matched k k (matches_of st k ++ (match_at st t k buff ∷ [])) []
      ∙ rw ((pair_key.same_iff k k).1 refl) refl

  -- The key of no buffer of the list.
  push_matches-other :
      (buffs : Map (ℕ × ℕ) LeafBuff) (st : Turns) (t : ℕ) (k : ℕ × ℕ)
      → find buffs k ≡ none
      → matches_of (push_matches st t buffs) k ≡ matches_of st k
  unfolding push_matches
  push_matches-other [] st t k h = refl
  push_matches-other ((key, buff) ∷ buffs) st t k h =
      let (other, rest) = missing_head key buff buffs k h in
      push_matches-other buffs (pushed st t key buff) t k rest ∙ pushed-other st t key k buff other

  push_matches-at :
      (buffs : Map (ℕ × ℕ) LeafBuff) (st : Turns) (t : ℕ) (k : ℕ × ℕ) (buff : LeafBuff)
      → KeysDiffer buffs
      → find buffs k ≡ some buff
      → matches_of (push_matches st t buffs) k ≡ matches_of st k ++ (match_at st t k buff ∷ [])
  unfolding push_matches match_at find
  push_matches-at [] st t k buff d h = cc
  push_matches-at ((key, b) ∷ buffs) st t k buff d h = elim (found_head key b buff buffs k h) [
    | inl here ↦
        push_matches-other buffs (pushed st t key b) t k
          (subst (λ j. find buffs j ≡ none) (sym here.0) d.0)
        ∙ (subst (λ j. matches_of (pushed st t j b) k ≡ matches_of st k ++ (match_at st t k b ∷ []))
              here.0 (pushed-at st t k b)
            ∙ ap (λ c. matches_of st k ++ (match_at st t k c ∷ [])) here.1)
    | inr later ↦
        push_matches-at buffs (pushed st t key b) t k buff d.1 later.1
        ∙ ap (λ v. v ++ (match_at st t k buff ∷ [])) (pushed-other st t key k b later.0)
  ]

  -- Every buffer has an entry for each of `n` steps, and the entries of a step were made with the
  -- turns of one state.
  pub record IsRecorded (sw : Switch) (n : ℕ) (st : Turns) : Type 0 where
    pub size :
        (key : ℕ × ℕ) (buff : LeafBuff)
        → find sw.buffs key ≡ some buff
        → length (matches_of st key) ≡ n
    pub entry :
        (t : ℕ)
        → t < n
        → (st' : Turns) × ((key : ℕ × ℕ) (buff : LeafBuff)
            → find sw.buffs key ≡ some buff
            → bit (matches_of st key) t ≡ match_at st' t key buff)

  push_matches-IsRecorded :
      (sw : Switch) (n : ℕ) (st : Turns)
      → KeysDiffer sw.buffs
      → IsRecorded sw n st
      → IsRecorded sw (suc n) (push_matches st n sw.buffs)
  push_matches-IsRecorded sw n st d r = record {
    size = λ key buff h.
        let here = push_matches-at sw.buffs st n key buff d h in
        ap length here
        ∙ (length-append (matches_of st key) (match_at st n key buff ∷ [])
            ∙ omega (arith, r.size key buff h));
    entry = λ t b. elim (earlier_or_last t n b) [
      | inl earlier ↦ (
        (r.entry t earlier).0,
        λ key buff h.
            ap (λ v. bit v t) (push_matches-at sw.buffs st n key buff d h)
            ∙ (get_or-append_left (matches_of st key) (match_at st n key buff ∷ []) t
                  z.undefined_bool (omega (arith, r.size key buff h))
                ∙ (r.entry t earlier).1 key buff h),
      )
      | inr last ↦ (
        st,
        λ key buff h.
            ap (λ v. bit v t) (push_matches-at sw.buffs st n key buff d h)
            ∙ last_entry (matches_of st key) t n (match_at st n key buff) (match_at st t key buff)
                last (r.size key buff h) (ap (λ i. match_at st i key buff) (sym last)),
      )
    ];
  }

  init-IsRecorded : (sw : Switch) → KeysDiffer sw.buffs → IsRecorded sw 1 (init sw no_turns)
  unfolding init find find_or
  init-IsRecorded sw d = push_matches-IsRecorded sw 0 _ d (record {
    size = λ key buff h.
        ap (λ m. length (find_or m key []))
          (kept_matches _ (λ st x. refl) (dst_map_per_src sw) _
            ∙ kept_matches _ (λ st x. refl) (src_map_per_dst sw) no_turns);
    entry = λ t b. absurd (omega arith);
  })

  trs-IsRecorded :
      (sw : Switch) (a : ℕ) (st : Turns)
      → KeysDiffer sw.buffs
      → IsRecorded sw (suc a) st
      → IsRecorded sw (suc (a + 1)) (trs sw st a)
  unfolding trs
  trs-IsRecorded sw a st d r = push_matches-IsRecorded sw (a + 1) _ d (record {
    size = λ key buff h. omega (arith, r.size key buff h);
    entry = λ t b. r.entry t (omega arith);
  })

  steps-IsRecorded :
      (sw : Switch) (a k : ℕ) (st : Turns)
      → KeysDiffer sw.buffs
      → IsRecorded sw (suc a) st
      → IsRecorded sw (suc a + k) (Base.trs_steps leaf_sts sw (range_from a k) st).1
  unfolding Base.trs_steps
  steps-IsRecorded sw a zero st d r = subst (λ n. IsRecorded sw n st) (omega arith) r
  steps-IsRecorded sw a (suc k) st d r =
      subst (λ n. IsRecorded sw n (Base.trs_steps leaf_sts sw (range_from a (suc k)) st).1)
        (omega arith)
        (steps-IsRecorded sw (suc a) k (trs sw st a) d
          (subst (λ n. IsRecorded sw n (trs sw st a)) (omega arith) (trs-IsRecorded sw a st d r)))

  -- The state that `LeafBase::trs` leaves.
  pub run-IsRecorded :
      (sw : Switch)
      → KeysDiffer sw.buffs
      → IsRecorded sw (suc (sw.timesteps - 1)) (Base.trs leaf_sts sw no_turns).1
  unfolding Base.trs
  run-IsRecorded sw d =
      subst (λ n. IsRecorded sw n (Base.trs leaf_sts sw no_turns).1) (omega arith)
        (steps-IsRecorded sw 0 (sw.timesteps - 1 - 0) (init sw no_turns) d (init-IsRecorded sw d))

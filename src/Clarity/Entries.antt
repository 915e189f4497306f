-- ===== src/Clarity/Entries.antt =====
-- The entries of an object: `data[key] = value`, and the sort of the keys by a comparison.
use funai_sdk.Prelude.{
  ◌≡◌, refl, ◌≢◌, Bool, List, [], ◌∷◌, ◌++◌, if◌then◌else◌, All, arith, sym, Bool-cases, inl, inr,
  ◌∙◌, ap, suc, length,
}
use funai_sdk.Js.Text.{JsString, js, str_eq, str_eq→eq}

module _ {ℓ} {A : Type ℓ} where
  -- An assignment keeps the place of a key that is there.
  unfoldable pub assign_own : JsString → A → List (JsString × A) → List (JsString × A)
  assign_own key value [] = (key, value) ∷ []
  assign_own key value ((k, v) ∷ data') =
      if str_eq k key then (key, value) ∷ data' else (k, v) ∷ assign_own key value data'

  -- `data[key] = value`. The key `__proto__` sets the prototype, and no property of its own.
  unfoldable pub assign : JsString → A → List (JsString × A) → List (JsString × A)
  assign key value data' = if str_eq key (js "__proto__") then data' else assign_own key value data'

  -- `keys.sort(compare)`, which is stable, along with the values; `le a b` is `compare(a, b) <= 0`.
  unfoldable pub insert_sorted :
      (JsString → JsString → Bool) → JsString × A → List (JsString × A) → List (JsString × A)
  insert_sorted le e [] = e ∷ []
  insert_sorted le e (f ∷ fs) = if le e.0 f.0 then e ∷ f ∷ fs else f ∷ insert_sorted le e fs

  unfoldable pub sort_keys :
      (JsString → JsString → Bool) → List (JsString × A) → List (JsString × A)
  sort_keys le [] = []
  sort_keys le (e ∷ es) = insert_sorted le e (sort_keys le es)

  -- No entry has the key.
  abbrev pub Fresh : JsString → List (JsString × A) → Type 0
  Fresh key [] = Unit {0}
  Fresh key (e ∷ es) = (e.0 ≢ key) × Fresh key es

  -- The keys differ, as an object's keys do.
  abbrev pub Distinct : List (JsString × A) → Type 0
  Distinct [] = Unit {0}
  Distinct (e ∷ es) = Fresh e.0 es × Distinct es

module _ {ℓ} {A : Type ℓ} where
  Fresh-insert_sorted :
      (le : JsString → JsString → Bool) (key : JsString) (e : JsString × A)
      (es : List (JsString × A))
      → e.0 ≢ key
      → Fresh key es
      → Fresh key (insert_sorted le e es)
  unfolding insert_sorted
  Fresh-insert_sorted le key e [] ne h = (ne, tt)
  Fresh-insert_sorted le key e (f ∷ fs) ne (hf, hs) = elim (Bool-cases (le e.0 f.0)) [
    | inl before ↦ rw before (ne, (hf, hs))
    | inr behind ↦ rw behind (hf, Fresh-insert_sorted le key e fs ne hs)
  ]

  Fresh-sort_keys :
      (le : JsString → JsString → Bool) (key : JsString) (es : List (JsString × A))
      → Fresh key es
      → Fresh key (sort_keys le es)
  unfolding sort_keys
  Fresh-sort_keys le key [] h = tt
  Fresh-sort_keys le key (e ∷ es) (he, hs) =
      Fresh-insert_sorted le key e (sort_keys le es) he (Fresh-sort_keys le key es hs)

  Distinct-insert_sorted :
      (le : JsString → JsString → Bool) (e : JsString × A) (es : List (JsString × A))
      → Fresh e.0 es
      → Distinct es
      → Distinct (insert_sorted le e es)
  unfolding insert_sorted
  Distinct-insert_sorted le e [] h d = (tt, tt)
  Distinct-insert_sorted le e (f ∷ fs) (hf, hs) (df, ds) = elim (Bool-cases (le e.0 f.0)) [
    | inl before ↦ rw before ((hf, hs), (df, ds))
    | inr behind ↦
        rw behind (
          Fresh-insert_sorted le f.0 e fs (λ p. hf (sym p)) df,
          Distinct-insert_sorted le e fs hs ds,
        )
  ]

  pub Distinct-sort_keys :
      (le : JsString → JsString → Bool) (es : List (JsString × A))
      → Distinct es
      → Distinct (sort_keys le es)
  unfolding sort_keys
  Distinct-sort_keys le [] d = tt
  Distinct-sort_keys le (e ∷ es) (h, d) =
      Distinct-insert_sorted le e (sort_keys le es) (Fresh-sort_keys le e.0 es h)
        (Distinct-sort_keys le es d)

  -- A new key comes last.
  pub assign_own-Fresh :
      (key : JsString) (value : A) (data' : List (JsString × A))
      → Fresh key data'
      → assign_own key value data' ≡ data' ++ ((key, value) ∷ [])
  unfolding assign_own
  assign_own-Fresh key value [] h = refl
  assign_own-Fresh key value ((k, v) ∷ data') (ne, h) = elim (Bool-cases (str_eq k key)) [
    | inl same ↦ absurd (ne (str_eq→eq k key same))
    | inr other ↦ rw (other, assign_own-Fresh key value data' h)
  ]

  pub Fresh-append :
      (key : JsString) (as' bs : List (JsString × A))
      → Fresh key as'
      → Fresh key bs
      → Fresh key (as' ++ bs)
  Fresh-append key [] bs h k = k
  Fresh-append key (a ∷ as') bs (ha, h) k = (ha, Fresh-append key as' bs h k)

module _ {ℓ κ} {A : Type ℓ} {B : Type κ} where
  abbrev pub map_values : (A → B) → List (JsString × A) → List (JsString × B)
  map_values f [] = []
  map_values f (e ∷ es) = (e.0, f e.1) ∷ map_values f es

module _ {ℓ κ} {A : Type ℓ} {B : Type κ} (f : A → B) where
  map_values-insert_sorted :
      (le : JsString → JsString → Bool) (e : JsString × A) (es : List (JsString × A))
      → map_values f (insert_sorted le e es) ≡ insert_sorted le (e.0, f e.1) (map_values f es)
  unfolding insert_sorted
  map_values-insert_sorted le e [] = refl
  map_values-insert_sorted le e (g ∷ gs) = elim (Bool-cases (le e.0 g.0)) [
    | inl before ↦ rw before
    | inr behind ↦ rw (behind, map_values-insert_sorted le e gs)
  ]

  -- The sort looks at keys alone.
  pub map_values-sort_keys :
      (le : JsString → JsString → Bool) (es : List (JsString × A))
      → map_values f (sort_keys le es) ≡ sort_keys le (map_values f es)
  unfolding sort_keys
  map_values-sort_keys le [] = refl
  map_values-sort_keys le (e ∷ es) =
      map_values-insert_sorted le e (sort_keys le es) ∙ rw (map_values-sort_keys le es)

  pub Fresh-map_values :
      (key : JsString) (es : List (JsString × A)) → Fresh key es → Fresh key (map_values f es)
  Fresh-map_values key [] h = tt
  Fresh-map_values key (e ∷ es) (he, hs) = (he, Fresh-map_values key es hs)

  pub length-map_values : (es : List (JsString × A)) → length (map_values f es) ≡ length es
  length-map_values [] = refl
  length-map_values (e ∷ es) = ap suc (length-map_values es)

module _ {ℓ κ} {A : Type ℓ} (P : JsString × A → Type κ) where
  All-insert_sorted :
      (le : JsString → JsString → Bool) (e : JsString × A) (es : List (JsString × A))
      → P e
      → All P es
      → All P (insert_sorted le e es)
  unfolding insert_sorted
  All-insert_sorted le e [] he h = (he, tt)
  All-insert_sorted le e (g ∷ gs) he (hg, hs) = elim (Bool-cases (le e.0 g.0)) [
    | inl before ↦ rw before (he, (hg, hs))
    | inr behind ↦ rw behind (hg, All-insert_sorted le e gs he hs)
  ]

  -- The sort keeps what holds of every entry.
  pub All-sort_keys :
      (le : JsString → JsString → Bool) (es : List (JsString × A))
      → All P es
      → All P (sort_keys le es)
  unfolding sort_keys
  All-sort_keys le [] h = tt
  All-sort_keys le (e ∷ es) (he, h) =
      All-insert_sorted le e (sort_keys le es) he (All-sort_keys le es h)

  All-insert_sorted_inverse :
      (le : JsString → JsString → Bool) (e : JsString × A) (es : List (JsString × A))
      → All P (insert_sorted le e es)
      → P e × All P es
  unfolding insert_sorted
  All-insert_sorted_inverse le e [] (he, h) = (he, tt)
  All-insert_sorted_inverse le e (g ∷ gs) h = elim (Bool-cases (le e.0 g.0)) [
    | inl before ↦ let h' : All P (e ∷ g ∷ gs) = rw before at h in (h'.0, h'.1)
    | inr behind ↦
        let h' : All P (g ∷ insert_sorted le e gs) = rw behind at h in
        let r = All-insert_sorted_inverse le e gs h'.1 in (r.0, (h'.0, r.1))
  ]

  pub All-sort_keys_inverse :
      (le : JsString → JsString → Bool) (es : List (JsString × A))
      → All P (sort_keys le es)
      → All P es
  unfolding sort_keys
  All-sort_keys_inverse le [] h = tt
  All-sort_keys_inverse le (e ∷ es) h =
      let r = All-insert_sorted_inverse le e (sort_keys le es) h in
      (r.0, All-sort_keys_inverse le es r.1)

module _ {ℓ} {A : Type ℓ} where
  length-insert_sorted :
      (le : JsString → JsString → Bool) (e : JsString × A) (es : List (JsString × A))
      → length (insert_sorted le e es) ≡ suc (length es)
  unfolding insert_sorted
  length-insert_sorted le e [] = refl
  length-insert_sorted le e (g ∷ gs) = ground (arith, length-insert_sorted le e gs)

  pub length-sort_keys :
      (le : JsString → JsString → Bool) (es : List (JsString × A))
      → length (sort_keys le es) ≡ length es
  unfolding sort_keys
  length-sort_keys le [] = refl
  length-sort_keys le (e ∷ es) =
      length-insert_sorted le e (sort_keys le es) ∙ ap suc (length-sort_keys le es)

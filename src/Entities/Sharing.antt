-- ===== src/Entities/Sharing.antt =====
-- How many rows of a kind have a natural key.
use clawndom.Common.{
  ℕ, ◌+◌, ◌≤◌, String, Bool, true, false, none, some, [], ◌∷◌, ◌==◌, ◌&&◌, ◌≡◌, refl, ap, ◌∙◌,
  arith, eq_iff, eq_refl, inl, inr, Bool-cases, get_or,
}
use clawndom.Common.Dict.{Dict, get, set, delete, get-set, get-delete}
use clawndom.Entities.Tables.{Entity}
use clawndom.Entities.Store.{EntityStoreOptions, compute_natural_key, has_key, find_by_natural_key}

module _ (options : EntityStoreOptions) where
  -- The entity is of the kind and has the natural key.
  unfoldable pub shares : String → String → Entity → Bool
  shares kind key entity =
      entity.kind == kind && has_key (compute_natural_key options kind entity.properties) key

  unfoldable pub one_if : Bool → ℕ
  one_if true = 1
  one_if false = 0

  -- How many rows are of the kind and have the natural key.
  unfoldable pub count_sharing : String → String → Dict Entity → ℕ
  unfolding shares one_if
  count_sharing kind key [] = 0
  count_sharing kind key ((id, entity) ∷ rows) =
      one_if (shares kind key entity) + count_sharing kind key rows

  -- No id has two rows.
  unfoldable pub HasDistinctIds : Dict Entity → Type 0
  HasDistinctIds [] = Unit
  HasDistinctIds ((id, entity) ∷ rows) = (get id rows ≡ none) × HasDistinctIds rows

  pub HasDistinctIds-set :
      (id : String) (entity : Entity) (rows : Dict Entity)
      → HasDistinctIds rows
      → HasDistinctIds (set id entity rows)
  unfolding HasDistinctIds set get
  HasDistinctIds-set id entity [] h = (refl, tt)
  HasDistinctIds-set id entity ((j, e) ∷ rows) h = elim (Bool-cases (j == id)) [
    | inl same ↦ rw same h
    | inr other ↦ rw other (
      get-set id j entity rows ∙ ground (arith, eq_iff id j, eq_refl j, other, h.0),
      HasDistinctIds-set id entity rows h.1,
    )
  ]

  pub HasDistinctIds-delete :
      (id : String) (rows : Dict Entity) → HasDistinctIds rows → HasDistinctIds (delete id rows)
  unfolding HasDistinctIds delete
  HasDistinctIds-delete id [] h = tt
  HasDistinctIds-delete id ((j, e) ∷ rows) h = elim (Bool-cases (j == id)) [
    | inl same ↦ rw same (HasDistinctIds-delete id rows h.1)
    | inr other ↦
        rw other (get-delete id j rows ∙ ground (arith, h.0), HasDistinctIds-delete id rows h.1)
  ]

  pub count_sharing-set_new :
      (kind key id : String) (entity : Entity) (rows : Dict Entity)
      → get id rows ≡ none
      → count_sharing kind key (set id entity rows)
        ≡ count_sharing kind key rows + one_if (shares kind key entity)
  unfolding count_sharing set get
  count_sharing-set_new kind key id entity [] h = omega arith
  count_sharing-set_new kind key id entity ((j, e) ∷ rows) h = elim (Bool-cases (j == id)) [
    | inl same ↦ absurd (ground (arith, rw same at h))
    | inr other ↦
        rw other (omega (arith, count_sharing-set_new kind key id entity rows (rw other at h)))
  ]

  pub count_sharing-set_found :
      (kind key id : String) (entity old : Entity) (rows : Dict Entity)
      → get id rows ≡ some old
      → count_sharing kind key (set id entity rows) + one_if (shares kind key old)
        ≡ count_sharing kind key rows + one_if (shares kind key entity)
  unfolding count_sharing set get
  count_sharing-set_found kind key id entity old [] h = absurd (cc h)
  count_sharing-set_found kind key id entity old ((j, e) ∷ rows) h = elim (Bool-cases (j == id)) [
    | inl same ↦
        rw same (omega (arith, ap (λ o. one_if (shares kind key (get_or o e))) (rw same at h)))
    | inr other ↦
        rw other
          (omega (arith, count_sharing-set_found kind key id entity old rows (rw other at h)))
  ]

  pub count_sharing-delete :
      (kind key id : String) (rows : Dict Entity)
      → count_sharing kind key (delete id rows) ≤ count_sharing kind key rows
  unfolding count_sharing delete
  count_sharing-delete kind key id [] = omega arith
  count_sharing-delete kind key id ((j, e) ∷ rows) =
      ground (arith, count_sharing-delete kind key id rows)

  pub nothing-shares :
      (kind key : String) (rows : Dict Entity)
      → find_by_natural_key options kind key rows ≡ none
      → count_sharing kind key rows ≡ 0
  unfolding count_sharing find_by_natural_key shares one_if
  nothing-shares kind key [] h = refl
  nothing-shares kind key ((j, e) ∷ rows) h = elim (Bool-cases (shares kind key e)) [
    | inl s ↦ absurd (ground (arith, rw s at h))
    | inr s ↦ rw s (omega (arith, nothing-shares kind key rows (rw s at h)))
  ]

  pub found-shares :
      (kind key id : String) (rows : Dict Entity)
      → HasDistinctIds rows
      → find_by_natural_key options kind key rows ≡ some id
      → (old : Entity) × (get id rows ≡ some old) × (shares kind key old ≡ true)
  unfolding find_by_natural_key shares HasDistinctIds get
  found-shares kind key id [] distinct h = absurd (cc h)
  found-shares kind key id ((j, e) ∷ rows) distinct h = elim (Bool-cases (shares kind key e)) [
    | inl s ↦ (e, ground (arith, (eq_iff j id).1 (ap (λ o. get_or o j) (rw s at h))), s)
    | inr s ↦
        let (old, there, shared) = found-shares kind key id rows distinct.1 (rw s at h) in
        elim (Bool-cases (j == id)) [
          | inl same ↦ absurd (cc (distinct.0, there, ap (λ i. get i rows) ((eq_iff j id).0 same)))
          | inr other ↦ (old, rw other there, shared)
        ]
  ]

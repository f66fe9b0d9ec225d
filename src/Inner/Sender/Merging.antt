-- ===== src/Inner/Sender/Merging.antt =====
-- Merging small blocks keeps their bytes.
use atsf4g_co.Base.{
  ℕ, suc, ◌+◌, ◌-◌, ◌≤◌, ◌≡◌, refl, sym, ap, ◌∙◌, ◌⊎◌, inl, inr, false, Option, none, some, List,
  [], ◌∷◌, ◌++◌, Bool-cases, arith,
}
use atsf4g_co.Base.Lists.{length, append_assoc}
use atsf4g_co.Inner.Wire.{Wire}
use atsf4g_co.Inner.Reader.{small_size}
use atsf4g_co.Inner.Sender.{Chunk, SendBuffers, Env, raw_size, merge_stops, merge, merge_small}

-- The bytes of some blocks
unfoldable pub data_of : List Chunk → List ℕ
data_of [] = []
data_of (c ∷ rest) = c.payload ++ data_of rest

pub data_of-cons : (c : Chunk) (rest : List Chunk) → data_of (c ∷ rest) ≡ c.payload ++ data_of rest
unfolding data_of
data_of-cons c rest = refl

pub length-cons : (c : Chunk) (rest : List Chunk) → length (c ∷ rest) ≡ suc (length rest)
unfolding length
length-cons c rest = refl

pub list_cases : (l : List Chunk) → (l ≡ []) ⊎ ((c : Chunk) × (rest : List Chunk) × (l ≡ c ∷ rest))
list_cases [] = inl refl
list_cases (c ∷ rest) = inr (c, rest, refl)

module _ {M : Type 0} (w : Wire) (bm : SendBuffers M) (env : Env) where
  -- Merging stops, or takes one more block; where it takes none, it stops at the first.
  merge-cases :
      (c : Chunk) (rest : List Chunk) (m : M) (preview : Option ℕ) (available : ℕ)
      → let more =
          merge w bm env rest (bm.pop_front m) (some c.ptr) (available - length c.payload) in
        (merge w bm env (c ∷ rest) m preview available ≡ (m, []))
        ⊎ (merge w bm env (c ∷ rest) m preview available ≡ (more.0, c.payload ++ more.1))
  unfolding merge
  merge-cases c rest m preview available =
      elim (Bool-cases (merge_stops w bm env c preview available)) [
        | inl e ↦ inl (rw e refl)
        | inr e ↦ inr (rw e refl)
      ]

  -- Merging keeps the bytes, and adds no block.
  abbrev Merges : List Chunk → M × List ℕ → Type 0
  Merges l r = (r.1 ++ data_of (bm.blocks r.0) ≡ data_of l) × (length (bm.blocks r.0) ≤ length l)

  merge-Merges :
      (l : List Chunk) (m : M) (preview : Option ℕ) (available : ℕ)
      → bm.blocks m ≡ l
      → Merges l (merge w bm env l m preview available)
  merge-Merges [] m preview available e = unfold merge in (ap data_of e, omega (arith, ap length e))
  merge-Merges (c ∷ rest) m preview available e =
      let next = bm.blocks-pop_front m c rest e in
      let room = available - length c.payload in
      let more = merge w bm env rest (bm.pop_front m) (some c.ptr) room in
      let (same, less) = merge-Merges rest (bm.pop_front m) (some c.ptr) room next in
      elim (merge-cases c rest m preview available) [
        | inl q ↦ rw q (ap data_of e, omega (arith, ap length e))
        | inr q ↦ rw q (
          append_assoc c.payload more.1 (data_of (bm.blocks more.0))
              ∙ (ap (λ x. c.payload ++ x) same ∙ sym (data_of-cons c rest)),
          omega (arith, length-cons c rest),
        )
      ]

  -- The buffer for merging is longer than a small block.
  abbrev pub Roomy : Type 0
  Roomy = small_size + env.write_header_offset ≤ env.tls_length

  merge-first :
      (c : Chunk) (rest : List Chunk) (m : M)
      → Roomy
      → bm.blocks m ≡ c ∷ rest
      → raw_size w bm env c ≤ small_size
      → length (
          bm.blocks (merge w bm env (c ∷ rest) m none (env.tls_length - env.write_header_offset)).0)
        ≤ length rest
  unfolding merge length
  merge-first c rest m roomy e small =
      let available = env.tls_length - env.write_header_offset in
      let goes_on : merge_stops w bm env c none available ≡ false = ground arith in
      let (_, less) =
        merge-Merges rest (bm.pop_front m) (some c.ptr) (available - length c.payload)
          (bm.blocks-pop_front m c rest e) in
      rw (merge, goes_on) less

  merge_small-cases :
      (c : Chunk) (rest : List Chunk) (m : M)
      → bm.blocks m ≡ c ∷ rest
      → let r = merge w bm env (c ∷ rest) m none (env.tls_length - env.write_header_offset) in
        (merge_small w bm env m ≡ m)
        ⊎ ((raw_size w bm env c ≤ small_size) × (merge_small w bm env m ≡ bm.push_front r.0 r.1))
  unfolding merge_small
  merge_small-cases c rest m e = rw (merge_small, e) (ground arith)

  -- Merging leaves a first block, and no more blocks than there were.
  pub merge_small-some :
      (c : Chunk) (rest : List Chunk) (m : M)
      → Roomy
      → bm.blocks m ≡ c ∷ rest
      → (c' : Chunk) × (rest' : List Chunk) × (bm.blocks (merge_small w bm env m) ≡ c' ∷ rest')
        × (length rest' ≤ length rest)
        × (data_of (c' ∷ rest') ≡ data_of (c ∷ rest))
  merge_small-some c rest m roomy e = elim (merge_small-cases c rest m e) [
    | inl q ↦ (c, rest, ap bm.blocks q ∙ e, omega arith, refl)
    | inr (small, q) ↦
        let r = merge w bm env (c ∷ rest) m none (env.tls_length - env.write_header_offset) in
        let (at, pushed) = bm.blocks-push_front r.0 r.1 in
        let (same, _) =
          merge-Merges (c ∷ rest) m none (env.tls_length - env.write_header_offset) e in
        let merged : Chunk = record { ptr = at; payload = r.1 } in
        (
          merged,
          bm.blocks r.0,
          ap bm.blocks q ∙ pushed,
          merge-first c rest m roomy e small,
          data_of-cons merged (bm.blocks r.0) ∙ same,
        )
  ]

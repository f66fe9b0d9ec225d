-- ===== src/Etcd/Cluster/Lists.antt =====
-- Lists of actors without doubles, and what removing from them does.
use atsf4g_co.Base.{
  ℕ, ◌≡◌, ◌≢◌, refl, ◌∙◌, false, ◌||◌, List, [], ◌∷◌, ◌++◌, ◌==◌, inl, inr, Bool-cases, arith,
}
use atsf4g_co.Etcd.Cluster.Actors.{member, last, but_last, swap_out}

-- No actor is on the list twice.
abbrev pub IsDistinct : List ℕ → Type 0
IsDistinct [] = Unit
IsDistinct (i ∷ is) = (member i is ≡ false) × IsDistinct is

member-append : (x i : ℕ) (l : List ℕ) → member x (l ++ (i ∷ [])) ≡ (member x l || x == i)
member-append x i [] = ground arith
member-append x i (j ∷ js) = ground (arith, member-append x i js)

pub append-IsDistinct :
    (i : ℕ) (l : List ℕ) → IsDistinct l → member i l ≡ false → IsDistinct (l ++ (i ∷ []))
append-IsDistinct i [] d n = (refl, tt)
append-IsDistinct i (j ∷ js) (out, d) n =
    ground (arith, member-append j i js, append-IsDistinct i js d)

member-last : (x k : ℕ) (ks : List ℕ) → member x (last k ks ∷ but_last k ks) ≡ member x (k ∷ ks)
member-last x k [] = refl
member-last x k (l ∷ ls) = ground (arith, member-last x l ls)

last-IsDistinct :
    (k : ℕ) (ks : List ℕ) → IsDistinct (k ∷ ks) → IsDistinct (last k ks ∷ but_last k ks)
last-IsDistinct k [] d = d
last-IsDistinct k (l ∷ ls) (out, d) = ground (arith, last-IsDistinct l ls d, member-last k l ls)

member-swap_out_other : (x i : ℕ) (l : List ℕ) → x ≢ i → member x (swap_out i l) ≡ member x l
unfolding swap_out
member-swap_out_other x i [] ne = refl
member-swap_out_other x i (j ∷ []) ne = ground arith
member-swap_out_other x i (j ∷ (k ∷ ks)) ne =
    ground (arith, member-swap_out_other x i (k ∷ ks) ne, member-last x k ks)

pub member-swap_out : (i : ℕ) (l : List ℕ) → IsDistinct l → member i (swap_out i l) ≡ false
unfolding swap_out
member-swap_out i [] d = refl
member-swap_out i (j ∷ []) d = ground arith
member-swap_out i (j ∷ (k ∷ ks)) (out, d) =
    ground (arith, member-swap_out i (k ∷ ks) d, member-last i k ks)

pub swap_out-IsDistinct : (i : ℕ) (l : List ℕ) → IsDistinct l → IsDistinct (swap_out i l)
unfolding swap_out
swap_out-IsDistinct i [] d = d
swap_out-IsDistinct i (j ∷ []) d = ground arith
swap_out-IsDistinct i (j ∷ (k ∷ ks)) (out, d) = elim (Bool-cases (i == j)) [
  | inl e ↦ rw e (last-IsDistinct k ks d)
  | inr e ↦
      rw e
        (member-swap_out_other j i (k ∷ ks) (ground arith) ∙ out, swap_out-IsDistinct i (k ∷ ks) d)
]

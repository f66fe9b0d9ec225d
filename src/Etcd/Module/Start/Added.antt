-- ===== src/Etcd/Module/Start/Added.antt =====
-- Which keys the start of `etcd_module` adds.
use mathlib.Core.Path.{subst}
use atsf4g_co.Base.{
  ℕ, ◌+◌, ◌<◌, ◌≡◌, refl, sym, ap, ◌∙◌, Bool, true, false, not, ◌&&◌, Option, some, List, [], ◌∷◌,
  ◌++◌, ◌==◌, arith, if◌then◌else◌, if-split, ==_iff, eq_self,
}
use atsf4g_co.Etcd.Keepalive as K
use atsf4g_co.Etcd.Keepalive.{Text, Keepalive, same_text}
use atsf4g_co.Etcd.Cluster.{
  Env, Kept, Cluster, open_request, enable, create_request_lease_grant, ask_lease,
}
use atsf4g_co.Etcd.Cluster.Actors.{
  put, member, try_delete, remove_keepalive_path, activate, add_keepalive, erase_path,
}
use atsf4g_co.Etcd.Cluster.Keeps.{Keeps, Each-trivial, activate-keeps}
use atsf4g_co.Etcd.Module.Start.{Module, Answers, set_value, add_keepalive_actor, add_actors}

-- The actors are all at addresses that were used.
unfoldable pub EachBelow : ℕ → List ℕ → Type 0
EachBelow n [] = Unit
EachBelow n (i ∷ is) = (i < n) × EachBelow n is

Below-member : (n : ℕ) (is : List ℕ) → EachBelow n is → member n is ≡ false
unfolding EachBelow
Below-member n [] h = refl
Below-member n (i ∷ is) h = ground (arith, Below-member n is)

Below-append : (n : ℕ) (is : List ℕ) → EachBelow n is → EachBelow (n + 1) (is ++ (n ∷ []))
unfolding EachBelow
Below-append n [] h = ground arith
Below-append n (i ∷ is) h = ground (arith, Below-append n is)

module _ {E : Type 0} where
  -- The object is not closing, and these are its actors and the paths in the store.
  abbrev Same : List ℕ → (ℕ → Text) → Cluster E → Type 0
  Same is f c =
      (c.closing ≡ false) × (c.keepalive_actors ≡ is) × ((j : ℕ) → (c.keepalives j).path ≡ f j)

  put-path :
      (c : Cluster E) (i j : ℕ) (k : Keepalive)
      → ((put c i k).keepalives j).path ≡ (c.keepalives j).path
  put-path c i j k =
      if-split (λ (x : Kept). x.path ≡ (c.keepalives j).path) (j == i)
        (λ e. ap (λ n. (c.keepalives n).path) (sym ((==_iff j i).0 e))) (λ e. refl)

  module _ (env : Env) where
    Same-Keeps : (is : List ℕ) (f : ℕ → Text) → Keeps env (Same is f) (λ d. Unit)
    unfolding open_request enable create_request_lease_grant ask_lease remove_keepalive_path
        try_delete
    Same-Keeps is f = record {
      opens = λ (c : Cluster E) h. ground arith;
      enables = λ (c : Cluster E) h. ground arith;
      activates = λ (c from : Cluster E) j h. (h.0, h.1, λ i. put-path c j i _ ∙ h.2 i);
      resets = λ (c : Cluster E) j h. (h.0, h.1, λ i. put-path c j i _ ∙ h.2 i);
      watches = λ (c : Cluster E) j w h. h;
      retries = λ (c : Cluster E) j running new h. h;
      settles = λ (c : Cluster E) h. h;
      tried = λ (c : Cluster E) h. Each-trivial c.deletors;
      empties = λ (c : Cluster E) h. h;
      removes = λ (c : Cluster E) d t h. ground arith;
    }

  module _ (a : Answers E) where
    set_value-Same :
        (is : List ℕ) (f : ℕ → Text) (c : Cluster E) (i : ℕ) (v : Text)
        → Same is f c
        → Same is f (set_value a c i v)
    unfolding set_value
    set_value-Same is f c i v (open_, actors, paths) =
        let c1 = put c i (record (c.keepalives i).keep { value = v; is_value_changed = true }) in
        let stored : Same is f c1 = (open_, actors, λ j. put-path c i j _ ∙ paths j) in
        if-split (Same is f) (same_text (c.keepalives i).keep.value v) (λ e. (open_, actors, paths))
          λ e.
            if-split (Same is f) (c.running && not (c.lease == 0))
              (λ e. activate-keeps (Same-Keeps a.env is f) c1 i stored) (λ e. stored)

    -- A key at an address that is not on the list is added.
    add_keepalive-Same :
        (is : List ℕ) (f : ℕ → Text) (c : Cluster E) (i : ℕ)
        → member i is ≡ false
        → Same is f c
        → ((add_keepalive a.env c i).1 ≡ true) × Same (is ++ (i ∷ [])) f (add_keepalive a.env c i).0
    unfolding add_keepalive
    add_keepalive-Same is f c i new (open_, actors, paths) =
        let c1 = enable a.env c true in
        let (open1, actors1, paths1) = (Same-Keeps a.env is f).enables c (open_, actors, paths) in
        let c2 = record c1 {
          keepalive_actors = c1.keepalive_actors ++ (i ∷ []);
          deletors = erase_path (c1.keepalives i).path c1.deletors;
        } in
        let more = is ++ (i ∷ []) in
        let stored : Same more f c2 = (open1, ap (λ l. l ++ (i ∷ [])) actors1, paths1) in
        let free : member i c.keepalive_actors ≡ false = ap (member i) actors ∙ new in
        let J = λ (r : Cluster E × Bool). (r.1 ≡ true) × Same more f r.0 in
        let d = if c2.running && not (c2.lease == 0) then activate a.env c2 i else c2 in
        let taken : add_keepalive a.env c i ≡ (d, true) = simp (open_, free) in
        let kept : Same more f d =
          if-split (Same more f) (c2.running && not (c2.lease == 0))
            (λ e. activate-keeps (Same-Keeps a.env more f) c2 i stored) (λ e. stored) in
        subst J (sym taken) (refl, kept)

    -- What holds of a module between the steps of `add_actors`
    pub record IsOpen (m : Module E) : Type 0 where
      pub running : m.cluster.closing ≡ false
      pub below : EachBelow m.next_key m.cluster.keepalive_actors

    abbrev pub path_at : Module E → ℕ → Text
    path_at m j = (m.cluster.keepalives j).path

    actor-added :
        (val path : Text) (m : Module E)
        → IsOpen m
        → let r = add_keepalive_actor a val path m in
          (r.1 ≡ some m.next_key)
          × (r.0.next_key ≡ m.next_key + 1)
          × IsOpen r.0
          × ((j : ℕ) → path_at r.0 j ≡ (if j == m.next_key then path else path_at m j))
    unfolding add_keepalive_actor
    actor-added val path m h =
        let i = m.next_key in
        let is = m.cluster.keepalive_actors in
        let f = λ (j : ℕ). if j == i then path else path_at m j in
        let k = K.set_checker_text K.create val in
        let c = record m.cluster {
          keepalives =
              λ j. if j == i then record { path = path; keep = k } else m.cluster.keepalives j;
        } in
        let start : Same is f c = (
          h.running,
          refl,
          λ j. if-split (λ (x : Kept). x.path ≡ f j) (j == i) (λ e. rw e refl) (λ e. rw e refl),
        ) in
        let new = Below-member i is h.below in
        let (added, (open_, actors, paths)) =
          add_keepalive-Same is f (set_value a c i val) i new (set_value-Same is f c i val start) in
        let r = add_keepalive a.env (set_value a c i val) i in
        let m1 : Module E = record m { cluster = r.0; next_key = i + 1 } in
        let taken : add_keepalive_actor a val path m ≡ (m1, some i) = simp added in
        let below : EachBelow (i + 1) r.0.keepalive_actors =
          subst (EachBelow (i + 1)) (sym actors) (Below-append i is h.below) in
        subst
          (λ (q : Module E × Option ℕ).
            (q.1 ≡ some i) × (q.0.next_key ≡ i + 1) × IsOpen q.0 × ((j : ℕ) → path_at q.0 j ≡ f j))
          (sym taken) (refl, refl, record { running = open_; below = below }, paths)

    abbrev pub paths_at : Module E → List ℕ → List Text
    paths_at m [] = []
    paths_at m (i ∷ is) = path_at m i ∷ paths_at m is

    -- All keys are added, each with its path, and the older keys keep theirs.
    pub add_actors-added :
        (val : Text) (paths : List Text) (m : Module E)
        → IsOpen m
        → let r = add_actors a val paths m in
          (is : List ℕ) × (r.1 ≡ some is)
          × (paths_at r.0 is ≡ paths)
          × ((j : ℕ) → j < m.next_key → path_at r.0 j ≡ path_at m j)
    unfolding add_actors
    add_actors-added val [] m h = ([], refl, refl, λ j b. refl)
    add_actors-added val (path ∷ paths) m h =
        let i = m.next_key in
        let r = add_keepalive_actor a val path m in
        let (taken, next, open_, stored) = actor-added val path m h in
        let (is, all, at, older) = add_actors-added val paths r.0 open_ in
        let more = add_actors a val paths r.0 in
        let whole : add_actors a val (path ∷ paths) m ≡ (more.0, some (i ∷ is)) =
          rw (add_actors, taken, all) refl in
        let mine : path_at more.0 i ≡ path =
          older i (omega (arith, next))
          ∙ (stored i ∙ ap (λ b. if b then path else path_at m i) (eq_self i)) in
        subst
          (λ (q : Module E × Option (List ℕ)).
            (js : List ℕ) × (q.1 ≡ some js)
            × (paths_at q.0 js ≡ path ∷ paths)
            × ((j : ℕ) → j < i → path_at q.0 j ≡ path_at m j))
          (sym whole)
          (
            i ∷ is,
            refl,
            ap (λ p. p ∷ paths_at more.0 is) mine ∙ ap (λ ps. path ∷ ps) at,
            λ j b.
                let differs : (j == i) ≡ false = ground arith in
                older j (omega (arith, next))
                ∙ (stored j ∙ ap (λ b. if b then path else path_at m j) differs),
          )

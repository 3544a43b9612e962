-- ===== src/Gc/Sweeping/Placed.antt =====
-- Where `internal_alloc` puts an object.
use insomniac.Base.{
  ℕ, zero, suc, ◌+◌, ◌≡◌, ◌⊎◌, refl, inl, inr, Bool, true, false, none, some, List, [], ◌∷◌,
  if◌then◌else◌, ◌==◌, arith,
}
use insomniac.Gc.State.{Result, done, ◌>>=◌, perm, Meta, store, Gc}
use insomniac.Gc.Sweep.{attach, attach_new, take_dead, internal_alloc, gc_alloc}
use insomniac.Gc.Sweeping.Place.{store_twice}

pub zero-cases : (n : ℕ) → (n ≡ 0) ⊎ ((m : ℕ) × (n ≡ suc m))
zero-cases zero = inl refl
zero-cases (suc m) = inr (m, refl)

-- the object that `gc_alloc` gives out
abbrev pub new_meta : Bool → ℕ → Gc → Meta
new_meta permanent size gc = record {
  mark = if permanent then perm else gc.current_mark;
  size = size;
  type_def = none;
  slots = λ _. none;
}

-- an object on its list
abbrev pub place : Bool → ℕ → ℕ → ℕ → Meta → Gc → Gc
place permanent p fresh count meta gc =
    if permanent
    then record gc {
      heap = store gc.heap p (some meta);
      fresh = fresh;
      perm_list = p ∷ gc.perm_list;
      allocations = count;
    }
    else record gc {
      heap = store gc.heap p (some meta);
      fresh = fresh;
      active_list = p ∷ gc.active_list;
      allocations = count;
    }

abbrev pub place_new : Bool → ℕ → Gc → Gc
place_new permanent size gc =
    place permanent gc.fresh (suc gc.fresh) (gc.allocations + 1) (new_meta permanent size gc) gc

abbrev pub without : ℕ → List ℕ → Gc → Gc
without p rest gc = record gc { heap = store gc.heap p none; dead_list = rest }

abbrev pub place_dead : Bool → ℕ → ℕ → List ℕ → Gc → Gc
place_dead permanent size p rest gc =
    place permanent p gc.fresh gc.allocations (new_meta permanent size gc) (without p rest gc)

module _ (go : Gc → Result Gc) (size : ℕ) (gc : Gc) where
  pub alloc_large :
      (permanent : Bool)
      → (size == gc.cell_size) ≡ false
      → gc_alloc go permanent size gc ≡ done (gc.fresh, place_new permanent size gc)
  unfolding gc_alloc internal_alloc attach_new attach ◌>>=◌
  alloc_large true large = ground (arith, large, store_twice gc.heap gc.fresh)
  alloc_large false large = ground (arith, large, store_twice gc.heap gc.fresh)

  -- what `internal_alloc` does first for a cell
  abbrev pub Prepares : Gc → Type 0
  Prepares ready = elim gc.dead_list [ [] ↦ go gc | _ ∷ _ ↦ done gc ] ≡ done ready

  pub alloc_none :
      (permanent : Bool) (ready : Gc)
      → (size == gc.cell_size) ≡ true
      → Prepares ready
      → ready.dead_list ≡ []
      → gc_alloc go permanent size gc ≡ done (ready.fresh, place_new permanent size ready)
  unfolding gc_alloc internal_alloc take_dead attach_new attach ◌>>=◌
  alloc_none true ready cell prepared empty =
      ground (arith, cell, prepared, empty, store_twice ready.heap ready.fresh)
  alloc_none false ready cell prepared empty =
      ground (arith, cell, prepared, empty, store_twice ready.heap ready.fresh)

  pub alloc_reused :
      (permanent : Bool) (ready : Gc) (p : ℕ) (rest : List ℕ)
      → (size == gc.cell_size) ≡ true
      → Prepares ready
      → ready.dead_list ≡ p ∷ rest
      → gc_alloc go permanent size gc ≡ done (p, place_dead permanent size p rest ready)
  unfolding gc_alloc internal_alloc take_dead attach ◌>>=◌
  alloc_reused true ready p rest cell prepared filled =
      ground (arith, cell, prepared, filled, store_twice ready.heap p)
  alloc_reused false ready p rest cell prepared filled =
      ground (arith, cell, prepared, filled, store_twice ready.heap p)

-- ===== src/Spawn/Effect.antt =====
-- What `create` of Xernel/kernel/src/process.rs, with all it calls, leaves of the process table.
use xernel.Spawn.{user_stack_va, user_stack_pages, seed_caps}
use xernel.Spawn.Create.{in_space, loaded, stacked, alloc_pages, create}
use xernel.Elf.Load.{
  load_parsed, and_rest, copy_all, load_pages, place, placed, prepend_page, with_memory, map_all,
  load,
}
use xernel.Vspace.{framed, fresh_frame, spaced, vspace_new, map_user, alloc_mapped, alloc_map_user}
use xernel.Prelude.{
  Bool-cases, ℕ, zero, suc, ◌+◌, ◌≡◌, refl, ◌∙◌, inl, inr, Bool, true, false, Option, none, some,
  List, [], ◌∷◌,
}
use xernel.Process.{ready, Process, Core}
use xernel.Syscall.{Kernel}
use xernel.Syscall.Memory.{MapPage}
use xernel.Frame.{PhysFrameAllocator, alloc}
use xernel.Elf.{LoadResult, loads, fails, Segment, parse}
use xernel.Elf.Pages.{PageInfo, PageMap, cover_segments}

framed-core : (k : Kernel) (r : Option ℕ × PhysFrameAllocator) → (framed k r).1.core ≡ k.core
framed-core k (none, frames) = refl
framed-core k (some phys, frames) = refl

fresh_frame-core : (k : Kernel) → (fresh_frame k).1.core ≡ k.core
unfolding fresh_frame
fresh_frame-core k = framed-core k (alloc k.frames)

spaced-core : (k : Kernel) (r : Option ℕ × PhysFrameAllocator) → (spaced k r).1.core ≡ k.core
spaced-core k (none, frames) = refl
spaced-core k (some l4_phys, frames) = refl

vspace_new-core : (k : Kernel) → (vspace_new k).1.core ≡ k.core
unfolding vspace_new
vspace_new-core k = spaced-core k (alloc k.frames)

prepend_page-core :
    (map_to : MapPage) (page : ℕ × PageInfo) (r : LoadResult PageMap × Kernel)
    → (prepend_page map_to page r).1.core ≡ r.1.core
prepend_page-core map_to page (loads pages, k) = refl
prepend_page-core map_to page (fails e, k) = refl

with_memory-core :
    (k : Kernel) (entry : ℕ) (r : LoadResult (Unit {0}) × (ℕ → ℕ))
    → (with_memory k entry r).1.core ≡ k.core
with_memory-core k entry (loads t, memory) = refl
with_memory-core k entry (fails e, memory) = refl

copy_all-core :
    (image : List ℕ) (entry : ℕ) (segments : List Segment) (r : LoadResult PageMap × Kernel)
    → (copy_all image entry segments r).1.core ≡ r.1.core
copy_all-core image entry segments (fails e, k) = refl
copy_all-core image entry segments (loads pages, k) = with_memory-core k entry _

module _ (map_to : MapPage) where
  map_user-core :
      (k : Kernel) (l4_phys virt phys : ℕ) (w x : Bool)
      → (map_user map_to k l4_phys virt phys w x).1.core ≡ k.core
  unfolding map_user
  map_user-core k l4_phys virt phys w x = refl

  alloc_mapped-core :
      (l4_phys virt : ℕ) (w x : Bool) (r : Option ℕ × Kernel)
      → (alloc_mapped map_to l4_phys virt w x r).1.core ≡ r.1.core
  alloc_mapped-core l4_phys virt w x (none, k) = refl
  alloc_mapped-core l4_phys virt w x (some phys, k) = map_user-core k l4_phys virt phys w x

  alloc_map_user-core :
      (k : Kernel) (l4_phys virt : ℕ) (w x : Bool)
      → (alloc_map_user map_to k l4_phys virt w x).1.core ≡ k.core
  unfolding alloc_map_user
  alloc_map_user-core k l4_phys virt w x =
      alloc_mapped-core l4_phys virt w x (fresh_frame k) ∙ fresh_frame-core k

  pub alloc_pages-core :
      (pages : ℕ) (k : Kernel) (space va : ℕ)
      → (alloc_pages map_to k space va pages).1.core ≡ k.core
  unfolding alloc_pages
  alloc_pages-core zero k space va = refl
  alloc_pages-core (suc pages) k space va =
      let k' = (alloc_map_user map_to k space va true false).1 in
      let one = alloc_map_user-core k space va true false in
      elim (Bool-cases (alloc_map_user map_to k space va true false).0) [
        | inl fine ↦ rw fine (alloc_pages-core pages k' space (va + 4096) ∙ one)
        | inr full ↦ rw full one
      ]

  placed-core :
      (page : ℕ) (info : PageInfo) (phys : ℕ) (r : Bool × Kernel)
      → (placed map_to page info phys r).1.core ≡ r.1.core
  placed-core page info phys (false, k) = refl
  placed-core page info phys (true, k) = refl

  place-core :
      (space page : ℕ) (info : PageInfo) (r : Option ℕ × Kernel)
      → (place map_to space page info r).1.core ≡ r.1.core
  place-core space page info (none, k) = refl
  place-core space page info (some phys, k) =
      placed-core page info phys (map_user map_to k space page phys info.writable info.executable)
      ∙ map_user-core k space page phys info.writable info.executable

  and_rest-core :
      (next : Kernel → LoadResult PageMap × Kernel) (r : LoadResult (ℕ × PageInfo) × Kernel)
      → ((k : Kernel) → (next k).1.core ≡ k.core)
      → (and_rest map_to next r).1.core ≡ r.1.core
  and_rest-core next (fails e, k) h = refl
  and_rest-core next (loads entry, k) h = prepend_page-core map_to entry (next k) ∙ h k

  map_all-core :
      (pages : PageMap) (k : Kernel) (space : ℕ) → (map_all map_to k space pages).1.core ≡ k.core
  unfolding map_all
  map_all-core [] k space = refl
  map_all-core ((page, info) ∷ pages) k space =
      and_rest-core _ (place map_to space page info (fresh_frame k))
        (λ k'. map_all-core pages k' space)
      ∙ place-core space page info (fresh_frame k)
      ∙ fresh_frame-core k

  load_pages-core :
      (k : Kernel) (space : ℕ) (image : List ℕ) (entry : ℕ) (segments : List Segment)
      (r : LoadResult PageMap)
      → (load_pages map_to k space image entry segments r).1.core ≡ k.core
  load_pages-core k space image entry segments (fails e) = refl
  load_pages-core k space image entry segments (loads pages) =
      copy_all-core image entry segments (map_all map_to k space pages) ∙ map_all-core pages k space

  load_parsed-core :
      (k : Kernel) (space : ℕ) (image : List ℕ) (r : LoadResult (ℕ × List Segment))
      → (load_parsed map_to k space image r).1.core ≡ k.core
  load_parsed-core k space image (fails e) = refl
  load_parsed-core k space image (loads (entry, segments)) =
      load_pages-core k space image entry segments (cover_segments segments [])

  load-core :
      (k : Kernel) (image : List ℕ) (space : ℕ) → (load map_to k image space).1.core ≡ k.core
  unfolding load
  load-core k image space = load_parsed-core k space image (parse image)

-- The process that a spawn makes: its PID, and what it holds.
abbrev pub Newborn : ℕ → Process → Type 0
Newborn pid p = (p.pid ≡ pid) × (p.caps ≡ seed_caps pid) × (p.state ≡ ready)

-- A creation gives a process as it is made for the PID, or none, and the table is as it was.
abbrev pub Made : ℕ → Core → Option Process × Kernel → Type 0
Made pid c (none, k) = k.core ≡ c
Made pid c (some p, k) = (k.core ≡ c) × Newborn pid p

module _ (map_to : MapPage) (stack_end : ℕ → ℕ) where
  stacked-Made :
      (pid space entry : ℕ) (c : Core) (r : Bool × Kernel)
      → r.1.core ≡ c
      → Made pid c (stacked map_to stack_end pid space entry r)
  stacked-Made pid space entry c (false, k) h = h
  stacked-Made pid space entry c (true, k) h = (h, (refl, refl, refl))

  loaded-Made :
      (pid space : ℕ) (c : Core) (r : LoadResult ℕ × Kernel)
      → r.1.core ≡ c
      → Made pid c (loaded map_to stack_end pid space r)
  loaded-Made pid space c (fails e, k) h = h
  loaded-Made pid space c (loads entry, k) h =
      stacked-Made pid space entry c (alloc_pages map_to k space user_stack_va user_stack_pages)
        (alloc_pages-core map_to user_stack_pages k space user_stack_va ∙ h)

  in_space-Made :
      (pid : ℕ) (bytes : List ℕ) (c : Core) (r : Option ℕ × Kernel)
      → r.1.core ≡ c
      → Made pid c (in_space map_to stack_end pid bytes r)
  in_space-Made pid bytes c (none, k) h = h
  in_space-Made pid bytes c (some space, k) h =
      loaded-Made pid space c (load map_to k bytes space) (load-core map_to k bytes space ∙ h)

  pub create-Made :
      (k : Kernel) (pid : ℕ) (bytes : List ℕ)
      → Made pid k.core (create map_to stack_end k pid bytes)
  unfolding create
  create-Made k pid bytes = in_space-Made pid bytes k.core (vspace_new k) (vspace_new-core k)

-- ===== src/Frame/History.antt =====
-- The allocator of Xernel/kernel/src/mm/frame.rs under any sequence of calls by clients that free
-- only frames they hold.
use xernel.Prelude.{
  ltb, ◌==◌, ltb→lt, Bool-cases, length, length-append, add64, ℕ, zero, suc, ◌+◌, ◌*◌, ◌%◌, ◌^◌,
  ◌≤◌, ◌<◌, ◌≡◌, refl, ◌∙◌, ◌⊎◌, inl, inr, Option, none, some, List, [], ◌∷◌, ◌++◌, arith,
}
use xernel.Frame.{
  Region, PhysFrameAllocator, new, alloc_contiguous, alloc, free_frame, alloc_from, rounds_left,
}
use xernel.Frame.Bump.{
  MapOk, CursorOk, InMap, Bumped, exhausted, took, unchanged-Bumped, bump-Bumped,
}
use xernel.Frame.Pages.{
  count, remove, All, frames_of, count-append, count-remove, length-remove, All-remove, All-held,
  All-append, All-map, length-frames_of, count-frames_of_below, count-frames_of_le,
}

-- The allocator, with the frames that clients hold.
pub record World : Type 0 where
  pub state : PhysFrameAllocator
  pub live : List ℕ

pub data Step (w v : World) : Type 0 where
  allocated : (pa : ℕ) → alloc w.state ≡ (some pa, v.state) → v.live ≡ pa ∷ w.live → Step w v
  contiguous :
      (n pa : ℕ)
      → n < 2 ^ 40
      → alloc_contiguous w.state n ≡ (some pa, v.state)
      → v.live ≡ frames_of pa n ++ w.live
      → Step w v
  refused : alloc w.state ≡ (none, v.state) → v.live ≡ w.live → Step w v
  refused_run :
      (n : ℕ)
      → n < 2 ^ 40
      → alloc_contiguous w.state n ≡ (none, v.state)
      → v.live ≡ w.live
      → Step w v
  freed :
      (pa : ℕ)
      → 0 < count pa w.live
      → v.state ≡ free_frame w.state pa
      → v.live ≡ remove pa w.live
      → Step w v

pub data Reach (w : World) : World → Type 0 where
  here : Reach w w
  next : {u v : World} → Reach w u → Step u v → Reach w v

-- A frame behind which the cursor has gone, in the memory map.
abbrev pub Page : List Region → ℕ → ℕ → Type 0
Page rs cursor x = (x + 4096 ≤ cursor) × (x % 4096 ≡ 0) × InMap rs x 1

count-behind :
    (rs : List Region) (cursor x : ℕ) (xs : List ℕ)
    → All (Page rs cursor) xs
    → cursor < x + 4096
    → count x xs ≡ 0
count-behind rs cursor x [] h l = refl
count-behind rs cursor x (y ∷ ys) h l = ground (arith, count-behind rs cursor x ys h.1 l)

Page-grow :
    (rs : List Region) (c d : ℕ) (xs : List ℕ) → c ≤ d → All (Page rs c) xs → All (Page rs d) xs
Page-grow rs c d xs h = All-map xs λ x (l, al, i). (omega arith, al, i)

-- The frames of a run are frames of the map.
frames_of-Page :
    (rs : List Region) (cursor pa n : ℕ)
    → pa + n * 4096 ≤ cursor
    → pa % 4096 ≡ 0
    → InMap rs pa n
    → All (Page rs cursor) (frames_of pa n)
frames_of-Page rs cursor pa zero h al i = tt
frames_of-Page rs cursor pa (suc n) h al (i, r, e, lo, hi) = (
  (omega arith, al, (i, r, e, lo, omega arith)),
  frames_of-Page rs cursor (pa + 4096) n (omega arith) (omega arith)
      (i, r, e, omega arith, omega arith),
)

-- A run that starts behind the cursor is made of new frames.
run-distinct :
    (rs : List Region) (cursor x pa n : ℕ) (live free : List ℕ)
    → cursor ≤ pa
    → All (Page rs cursor) live
    → All (Page rs cursor) free
    → count x live + count x free ≤ 1
    → count x (frames_of pa n ++ live) + count x free ≤ 1
run-distinct rs cursor x pa n live free h l f d = elim (Bool-cases (ltb cursor (x + 4096))) [
  | inl new ↦ omega (
    arith,
    ltb→lt _ _ new,
    count-append x (frames_of pa n) live,
    count-frames_of_le x pa n,
    count-behind rs cursor x live l (ltb→lt _ _ new),
    count-behind rs cursor x free f (ltb→lt _ _ new),
  )
  | inr old ↦
      omega
        (arith, count-append x (frames_of pa n) live, count-frames_of_below x pa n (ground arith))
]

module _ (rs : List Region) where
  pub record Good (w : World) : Type 0 where
    pub same_map : w.state.regions ≡ rs
    pub map_ok : MapOk w.state.regions
    pub cursor_ok : CursorOk w.state
    pub distinct : (x : ℕ) → count x w.live + count x w.state.free ≤ 1
    pub live_pages : All (Page w.state.regions w.state.cursor) w.live
    pub free_pages : All (Page w.state.regions w.state.cursor) w.state.free
    pub counted : w.state.in_use ≡ length w.live
    pub room : (length w.live + length w.state.free) * 4096 ≤ w.state.cursor

  -- After a run of the loop nothing new is free, and a run that was taken is live.
  Bumped-Good :
      (w v : World) (n : ℕ) (out : Option ℕ)
      → Good w
      → n < 2 ^ 40
      → Bumped w.state n (out, v.state)
      → ((out ≡ none) × (v.live ≡ w.live))
        ⊎ ((pa : ℕ) × (out ≡ some pa) × (v.live ≡ frames_of pa n ++ w.live))
      → Good v
  Bumped-Good w v n out g small (exhausted e k c u) (inl (_, same)) = record {
    same_map = k.regions ∙ g.same_map;
    map_ok = rw k.regions g.map_ok;
    cursor_ok = c;
    distinct = λ x. rw (same, k.free) (g.distinct x);
    live_pages =
        rw (same, k.regions)
          (Page-grow w.state.regions w.state.cursor v.state.cursor w.live k.grown g.live_pages);
    free_pages =
        rw (k.free, k.regions)
          (Page-grow w.state.regions w.state.cursor v.state.cursor w.state.free k.grown
            g.free_pages);
    counted = rw same (u ∙ g.counted);
    room = rw (same, k.free) (omega (arith, g.room, k.grown));
  }
  Bumped-Good w v n out g small (exhausted e k c u) (inr (pa, e', _)) = absurd (cc)
  Bumped-Good w v n out g small (took pa e k c u low al cur i) (inl (e', _)) = absurd (cc)
  Bumped-Good w v n out g small (took pa e k c u low al cur i) (inr (pb, e', new')) =
      let same : pb ≡ pa = ground arith in
      let new : v.live ≡ frames_of pa n ++ w.live = rw (← same) new' in
      record {
        same_map = k.regions ∙ g.same_map;
        map_ok = rw k.regions g.map_ok;
        cursor_ok = c;
        distinct = λ x.
            rw (new, k.free)
              (run-distinct w.state.regions w.state.cursor x pa n w.live w.state.free low
                g.live_pages g.free_pages (g.distinct x));
        live_pages =
            rw (new, k.regions)
              (All-append _ (frames_of pa n) w.live
                (frames_of-Page w.state.regions v.state.cursor pa n (omega arith) al i)
                (Page-grow w.state.regions w.state.cursor v.state.cursor w.live k.grown
                  g.live_pages));
        free_pages =
            rw (k.free, k.regions)
              (Page-grow w.state.regions w.state.cursor v.state.cursor w.state.free k.grown
                g.free_pages);
        counted =
            rw (new, u)
              (omega (
                arith,
                length-append (frames_of pa n) w.live,
                length-frames_of pa n,
                g.room,
                g.cursor_ok.low,
                g.counted,
              ));
        room =
            rw (new, k.free)
              (omega (arith, length-append (frames_of pa n) w.live, length-frames_of pa n, g.room));
      }

  -- Taking a frame from the free list moves it to the live ones.
  reused-Good :
      (w v : World) (pa : ℕ) (rest : List ℕ)
      → Good w
      → w.state.free ≡ pa ∷ rest
      → v.state ≡ record w.state { free = rest; in_use = add64 w.state.in_use 1 }
      → v.live ≡ pa ∷ w.live
      → Good v
  reused-Good w v pa rest g e es el = record {
    same_map = rw es g.same_map;
    map_ok = rw es g.map_ok;
    cursor_ok = rw es (record {
      inside = g.cursor_ok.inside;
      aligned = g.cursor_ok.aligned;
      low = g.cursor_ok.low;
    });
    distinct = λ x. rw (es, el) (omega (arith, rw e at (g.distinct x)));
    live_pages = rw (es, el) (pages.0, g.live_pages);
    free_pages = rw es pages.1;
    counted = rw (es, el) (omega (arith, g.counted, g.room, g.cursor_ok.low));
    room = rw (es, el) (omega (arith, rw e at g.room));
  }
    where
      pages : All (Page w.state.regions w.state.cursor) (pa ∷ rest)
      pages = rw e at g.free_pages

  -- Freeing a live frame moves it to the free list.
  freed-Good :
      (w v : World) (pa : ℕ)
      → Good w
      → 0 < count pa w.live
      → v.state ≡ free_frame w.state pa
      → v.live ≡ remove pa w.live
      → Good v
  unfolding free_frame
  freed-Good w v pa g h es el = record {
    same_map = rw es g.same_map;
    map_ok = rw es g.map_ok;
    cursor_ok = rw es (record {
      inside = g.cursor_ok.inside;
      aligned = g.cursor_ok.aligned;
      low = g.cursor_ok.low;
    });
    distinct = λ x. rw (es, el) (omega (arith, g.distinct x, count-remove x pa w.live h));
    live_pages = rw (es, el) (All-remove _ pa w.live g.live_pages);
    free_pages = rw es (All-held _ pa w.live g.live_pages h, g.free_pages);
    counted = rw (es, el) (omega (arith, g.counted, length-remove pa w.live h));
    room = rw (es, el) (omega (arith, g.room, length-remove pa w.live h));
  }

  alloc-Good :
      (w v : World) (out : Option ℕ) (free : List ℕ)
      → w.state.free ≡ free
      → Good w
      → alloc_from free w.state ≡ (out, v.state)
      → ((out ≡ none) × (v.live ≡ w.live)) ⊎ ((pa : ℕ) × (out ≡ some pa) × (v.live ≡ pa ∷ w.live))
      → Good v
  alloc-Good w v out (pa ∷ rest) f g e (inl (n, l)) = absurd (ground arith)
  alloc-Good w v out (pa ∷ rest) f g e (inr (pb, n, l)) =
      reused-Good w v pa rest g f (ground arith) (ground arith)
  alloc-Good w v out [] f g e l =
      Bumped-Good w v 1 out g (omega arith)
        (rw e at (bump-Bumped (rounds_left w.state) w.state 1 g.map_ok g.cursor_ok (omega arith))) l

  contiguous-Good :
      (w v : World) (n : ℕ) (out : Option ℕ)
      → Good w
      → n < 2 ^ 40
      → alloc_contiguous w.state n ≡ (out, v.state)
      → ((out ≡ none) × (v.live ≡ w.live))
        ⊎ ((pa : ℕ) × (out ≡ some pa) × (v.live ≡ frames_of pa n ++ w.live))
      → Good v
  unfolding alloc_contiguous
  contiguous-Good w v n out g small e l = elim (Bool-cases (n == 0)) [
    | inl z ↦
        Bumped-Good w v n out g small (rw (rw z at e) at (unchanged-Bumped w.state n g.cursor_ok)) l
    | inr p ↦
        Bumped-Good w v n out g small
          (rw (rw p at e) at
            (bump-Bumped (rounds_left w.state) w.state n g.map_ok g.cursor_ok small))
          l
  ]

  Step-Good : (w v : World) → Good w → Step w v → Good v
  unfolding alloc
  Step-Good w v g (allocated pa e l) =
      alloc-Good w v (some pa) w.state.free refl g e (inr (pa, refl, l))
  Step-Good w v g (contiguous n pa small e l) =
      contiguous-Good w v n (some pa) g small e (inr (pa, refl, l))
  Step-Good w v g (refused e l) = alloc-Good w v none w.state.free refl g e (inl (refl, l))
  Step-Good w v g (refused_run n small e l) = contiguous-Good w v n none g small e (inl (refl, l))
  Step-Good w v g (freed pa h e l) = freed-Good w v pa g h e l

  pub Reach-Good : {w v : World} → Good w → Reach w v → Good v
  Reach-Good g here = g
  Reach-Good g (next {u} {v} r s) = Step-Good u v (Reach-Good g r) s

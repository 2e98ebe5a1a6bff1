-- ===== src/Physical/Sequence.antt =====
-- Sequences of `AllocFrame` and `FreeFrame`, against a set of frames.
use fur_os.Prelude.{
  ℕ, ◌/◌, ◌≡◌, ◌≢◌, refl, ◌∙◌, ap, Bool, true, not, ◌&&◌, ◌||◌, ◌==◌, if◌then◌else◌, List, [], ◌∷◌,
  arith, ==_refl, ==_false,
}
use mathlib.Core.Path.{fun_ext}
use fur_os.Prelude.Int.{ℤ, pos, negsuc}
use fur_os.Physical.{Kernel, alloc_frame, free_frame}
use fur_os.Physical.Frames.{taken, alloc_frame-taken, free_frame-taken}

-- A call: of `AllocFrame` with an address, or of `FreeFrame` with a frame number.
pub data FrameCall : Type 0 where
  alloc : ℕ → FrameCall
  free : ℕ → FrameCall

abbrev pub frame_call : FrameCall → Kernel → ℤ × Kernel
frame_call (alloc address) k = alloc_frame address k
frame_call (free frame) k = free_frame frame k

-- What the calls return, and the state after them.
unfoldable pub run_calls : List FrameCall → Kernel → List ℤ × Kernel
run_calls [] k = ([], k)
run_calls (c ∷ cs) k =
    let (r, k') = frame_call c k in let (rs, k'') = run_calls cs k' in (r ∷ rs, k'')

-- A set of frames, and the same calls on it: a frame is put in if it is not there, and taken out if
-- it is; otherwise the call fails.
abbrev pub FrameSet : Type 0
FrameSet = ℕ → Bool

abbrev pub set_call : FrameCall → FrameSet → ℤ × FrameSet
set_call (alloc address) f =
    (if f (address / 4096) then negsuc 0 else pos 0, λ g. (g == address / 4096) || f g)
set_call (free frame) f = (if f frame then pos 0 else negsuc 0, λ g. not (g == frame) && f g)

unfoldable pub run_set : List FrameCall → FrameSet → List ℤ × FrameSet
run_set [] f = ([], f)
run_set (c ∷ cs) f = let (r, f') = set_call c f in let (rs, f'') = run_set cs f' in (r ∷ rs, f'')

frame_call-set_call :
    (c : FrameCall) (k : Kernel)
    → ((frame_call c k).0 ≡ (set_call c (taken k)).0)
      × (taken (frame_call c k).1 ≡ (set_call c (taken k)).1)
frame_call-set_call (alloc address) k =
    let (r, after) = alloc_frame-taken address k in (r, fun_ext after)
frame_call-set_call (free frame) k = let (r, after) = free_frame-taken frame k in (r, fun_ext after)

-- The frame map refines a set of frames: any sequence of calls of `AllocFrame` and `FreeFrame` returns
-- what it returns on the set of the frames that are taken, and leaves the set that it leaves there.
pub run_calls-run_set :
    (cs : List FrameCall) (k : Kernel)
    → ((run_calls cs k).0 ≡ (run_set cs (taken k)).0)
      × (taken (run_calls cs k).1 ≡ (run_set cs (taken k)).1)
unfolding run_calls run_set
run_calls-run_set [] k = (refl, refl)
run_calls-run_set (c ∷ cs) k =
    let (r, after) = frame_call-set_call c k in
    let (rs, end) = run_calls-run_set cs (frame_call c k).1 in
    rw (← r, ← after) (ap (λ l. (frame_call c k).0 ∷ l) rs, end)

-- No call frees the frame `f`.
abbrev pub NeverFrees : ℕ → List FrameCall → Type 0
NeverFrees f [] = Unit {0}
NeverFrees f (alloc address ∷ cs) = NeverFrees f cs
NeverFrees f (free frame ∷ cs) = (frame ≢ f) × NeverFrees f cs

stays_taken :
    (f : ℕ) (cs : List FrameCall) (k : Kernel)
    → taken k f ≡ true
    → NeverFrees f cs
    → taken (run_calls cs k).1 f ≡ true
unfolding run_calls
stays_taken f [] k h never = h
stays_taken f (alloc address ∷ cs) k h never =
    stays_taken f cs (alloc_frame address k).1 ((alloc_frame-taken address k).1 f ∙ ground arith)
      never
stays_taken f (free frame ∷ cs) k h (ne, never) =
    stays_taken f cs (free_frame frame k).1
      ((free_frame-taken frame k).1 f ∙ rw (==_false f frame (λ e. ne (ground arith))) h) never

-- A frame that `AllocFrame` was called on is not handed out again by any later `AllocFrame` on an
-- address within it, as long as no call in between frees it.
pub alloc_frame-exclusive :
    (address again : ℕ) (cs : List FrameCall) (k : Kernel)
    → again / 4096 ≡ address / 4096
    → NeverFrees (address / 4096) cs
    → (alloc_frame again (run_calls cs (alloc_frame address k).1).1).0 ≡ negsuc 0
alloc_frame-exclusive address again cs k same never =
    let f = address / 4096 in
    let got : taken (alloc_frame address k).1 f ≡ true =
      (alloc_frame-taken address k).1 f ∙ ap (λ b. b || taken k f) (==_refl f) in
    let kept = stays_taken f cs (alloc_frame address k).1 got never in
    (alloc_frame-taken again (run_calls cs (alloc_frame address k).1).1).0 ∙ rw (same, kept)

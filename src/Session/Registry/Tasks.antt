-- ===== src/Session/Registry/Tasks.antt =====
-- The media tasks handed over to the registry: held, or cancelled.
use meowcaller.Base.{
  ℕ, ◌+◌, ◌≡◌, refl, inl, inr, some, List, [], ◌∷◌, ◌++◌, arith, ◌==◌, if◌then◌else◌, Option-cases,
  Bytes,
}
use meowcaller.Session.Phase.{CallPhase, CallSession, transition_to}
use meowcaller.Session.Registry.{
  CallEntry, CallRegistry, lookup, update, delete, insert, cancel_old, set_media_task, transition,
  remove, held, abort_all,
}

abbrev pub count : ℕ → List ℕ → ℕ
count t [] = 0
count t (x ∷ xs) = (if x == t then 1 else 0) + count t xs

count-append : (t : ℕ) (xs ys : List ℕ) → count t (xs ++ ys) ≡ count t xs + count t ys
count-append t [] ys = omega arith
count-append t (x ∷ xs) ys = ground (arith, count-append t xs ys)

-- The operations that change a registry.
pub data Operation : Type 0 where
  insert_op : CallSession → Operation
  set_media_task_op : Bytes → ℕ → Operation
  transition_op : Bytes → CallPhase → Operation
  remove_op : Bytes → Operation
  abort_all_op : Operation

-- One operation: the registry behind it, and the tasks it cancels.
unfoldable pub apply : CallRegistry → Operation → CallRegistry × List ℕ
apply r (insert_op s) = ((insert r s).0, [])
apply r (set_media_task_op k t) = set_media_task r k t
apply r (transition_op k next) = ((transition r k next).0, [])
apply r (remove_op k) = let (r', done, cancelled) = remove r k in (r', cancelled)
apply r abort_all_op = let (r', n, cancelled) = abort_all r in (r', cancelled)

-- The tasks that an operation hands over.
abbrev pub handed : Operation → List ℕ
handed (set_media_task_op k t) = t ∷ []
handed _ = []

count-held-update :
    (t : ℕ) (k : Bytes) (e f : CallEntry) (r : CallRegistry)
    → lookup k r ≡ some e
    → count t (held (update k f r)) + count t (cancel_old e.media_task)
      ≡ count t (held r) + count t (cancel_old f.media_task)
unfolding lookup update held
count-held-update t k e f [] h = cc
count-held-update t k e f ((j, g) ∷ r) h = ground (
  arith,
  count-append t (cancel_old f.media_task) (held r),
  count-append t (cancel_old g.media_task) (held r),
  count-append t (cancel_old g.media_task) (held (update k f r)),
  count-held-update t k e f r,
)

count-held-delete :
    (t : ℕ) (k : Bytes) (e : CallEntry) (r : CallRegistry)
    → lookup k r ≡ some e
    → count t (held (delete k r)) + count t (cancel_old e.media_task) ≡ count t (held r)
unfolding lookup delete held
count-held-delete t k e [] h = cc
count-held-delete t k e ((j, g) ∷ r) h = ground (
  arith,
  count-append t (cancel_old g.media_task) (held r),
  count-append t (cancel_old g.media_task) (held (delete k r)),
  count-held-delete t k e r,
)

-- One operation keeps the account of each task.
apply-count :
    (r : CallRegistry) (o : Operation) (t : ℕ)
    → count t (held (apply r o).0) + count t (apply r o).1 ≡ count t (held r) + count t (handed o)
unfolding apply
apply-count r (insert_op s) t = unfold insert held in ground arith
apply-count r (set_media_task_op k task) t = elim (Option-cases (lookup k r)) [
  | inl e ↦ unfold set_media_task in ground arith
  | inr (e, found) ↦
      unfold set_media_task in
      ground (arith, count-held-update t k e (record e { media_task = some task }) r found)
]
apply-count r (transition_op k next) t = elim (Option-cases (lookup k r)) [
  | inl e ↦ unfold transition in ground arith
  | inr (e, found) ↦
      unfold transition in
      ground (
        arith,
        count-held-update t k e (record e { session = (transition_to e.session next).0 }) r found,
      )
]
apply-count r (remove_op k) t = elim (Option-cases (lookup k r)) [
  | inl e ↦ unfold remove in ground arith
  | inr (e, found) ↦ unfold remove in ground (arith, count-held-delete t k e r found)
]
apply-count r abort_all_op t = unfold abort_all held in ground arith

-- A run of operations, with all that it cancels.
unfoldable pub apply_all : CallRegistry → List Operation → CallRegistry × List ℕ
apply_all r [] = (r, [])
apply_all r (o ∷ os) =
    let (r', cancelled) = apply r o in
    let (r'', later) = apply_all r' os in (r'', cancelled ++ later)

abbrev pub handed_all : List Operation → List ℕ
handed_all [] = []
handed_all (o ∷ os) = handed o ++ handed_all os

-- Over any run of operations each media task handed over is held at the end or has been
-- cancelled, exactly as often as it was handed over.
pub apply_all-count :
    (r : CallRegistry) (os : List Operation) (t : ℕ)
    → count t (held (apply_all r os).0) + count t (apply_all r os).1
      ≡ count t (held r) + count t (handed_all os)
unfolding apply_all
apply_all-count r [] t = omega arith
apply_all-count r (o ∷ os) t = omega (
  arith,
  count-append t (apply r o).1 (apply_all (apply r o).0 os).1,
  count-append t (handed o) (handed_all os),
  apply-count r o t,
  apply_all-count (apply r o).0 os t,
)

apply_all-abort_all :
    (r : CallRegistry) (os : List Operation) → (apply_all r (os ++ abort_all_op ∷ [])).0 ≡ []
unfolding apply_all
apply_all-abort_all r [] = unfold apply abort_all in refl
apply_all-abort_all r (o ∷ os) = apply_all-abort_all (apply r o).0 os

handed_all-abort_all :
    (os : List Operation) (t : ℕ)
    → count t (handed_all (os ++ abort_all_op ∷ [])) ≡ count t (handed_all os)
handed_all-abort_all [] t = refl
handed_all-abort_all (o ∷ os) t = omega (
  arith,
  count-append t (handed o) (handed_all os),
  count-append t (handed o) (handed_all (os ++ abort_all_op ∷ [])),
  handed_all-abort_all os t,
)

-- After any run of operations on a new registry that ends in AbortAll the registry is empty, and
-- each media task handed over has been cancelled exactly as often as it was handed over.
pub teardown :
    (os : List Operation) (t : ℕ)
    → ((apply_all [] (os ++ abort_all_op ∷ [])).0 ≡ [])
      × (count t (apply_all [] (os ++ abort_all_op ∷ [])).1 ≡ count t (handed_all os))
teardown os t =
    let run = os ++ abort_all_op ∷ [] in
    let empty = apply_all-abort_all [] os in
    let none_held : count t (held (apply_all [] run).0) ≡ 0 = rw empty (unfold held in refl) in
    let nothing : count t (held []) ≡ 0 = unfold held in refl in
    (empty, omega (arith, none_held, nothing, apply_all-count [] run t, handed_all-abort_all os t))

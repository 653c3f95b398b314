-- ===== src/Session/Registry/Lookup.antt =====
-- What the registry answers: each operation on one call id leaves the other calls alone.
use meowcaller.Base.{
  ℕ, ◌≡◌, refl, ap, ◌∙◌, inl, inr, Option, none, some, List, [], ◌∷◌, arith, if◌then◌else◌,
  Bool-cases, Option-cases, bytes_equal, bytes_equal_iff, Bytes,
}
use mathlib.Core.Path.{fun_ext}
use meowcaller.Session.Phase.{CallPhase, CallSession, transition_to}
use meowcaller.Session.Registry.{
  CallEntry, CallRegistry, lookup, update, delete, insert, set_media_task, transition, remove,
  abort_all,
}
use meowcaller.Session.Registry.Tasks.{
  Operation, insert_op, set_media_task_op, transition_op, remove_op, abort_all_op, apply, apply_all,
}

-- Every entry stands under its session's call id, and no id stands twice.
abbrev pub IsKeyed : CallRegistry → Type 0
IsKeyed [] = Unit {0}
IsKeyed ((k, e) ∷ r) = (e.session.call_id ≡ k) × (lookup k r ≡ none) × IsKeyed r

lookup-update :
    (k j : Bytes) (e f : CallEntry) (r : CallRegistry)
    → lookup k r ≡ some f
    → lookup j (update k e r) ≡ (if bytes_equal k j then some e else lookup j r)
unfolding lookup update
lookup-update k j e f [] h = cc
lookup-update k j e f ((i, g) ∷ r) h =
    ground (
      arith,
      bytes_equal_iff i k,
      bytes_equal_iff i j,
      bytes_equal_iff k j,
      lookup-update k j e f r,
    )

lookup-delete :
    (k j : Bytes) (r : CallRegistry)
    → IsKeyed r
    → lookup j (delete k r) ≡ (if bytes_equal k j then none else lookup j r)
unfolding lookup delete
lookup-delete k j [] h = ground arith
lookup-delete k j ((i, g) ∷ r) h =
    ground
      (arith, bytes_equal_iff i k, bytes_equal_iff i j, bytes_equal_iff k j, lookup-delete k j r)

-- A map from call ids to entries, and what each operation does to it.
abbrev pub CallMap : Type 0
CallMap = Bytes → Option CallEntry

abbrev map_entry : (CallEntry → CallEntry) → Option CallEntry → Option CallEntry
map_entry f none = none
map_entry f (some e) = some (f e)

abbrev insert_entry : CallSession → Option CallEntry → Option CallEntry
insert_entry s none = some (record { session = s; media_task = none })
insert_entry s (some e) = some e

abbrev pub apply_map : Operation → CallMap → CallMap
apply_map (insert_op s) m j = if bytes_equal s.call_id j then insert_entry s (m j) else m j
apply_map (set_media_task_op k t) m j =
    if bytes_equal k j then map_entry (λ e. record e { media_task = some t }) (m j) else m j
apply_map (transition_op k next) m j =
    if bytes_equal k j
    then map_entry (λ e. record e { session = (transition_to e.session next).0 }) (m j)
    else m j
apply_map (remove_op k) m j = if bytes_equal k j then none else m j
apply_map abort_all_op m j = none

transition_to-call_id :
    (s : CallSession) (next : CallPhase) → (transition_to s next).0.call_id ≡ s.call_id
unfolding transition_to
transition_to-call_id s next = ground arith

lookup-apply :
    (r : CallRegistry) (o : Operation) (j : Bytes)
    → IsKeyed r
    → lookup j (apply r o).0 ≡ apply_map o (λ k. lookup k r) j
unfolding apply
lookup-apply r (insert_op s) j h =
    unfold insert lookup in ground (arith, bytes_equal_iff s.call_id j)
lookup-apply r (set_media_task_op k t) j h = elim (Option-cases (lookup k r)) [
  | inl e ↦ unfold set_media_task in ground (arith, bytes_equal_iff k j)
  | inr (e, found) ↦
      unfold set_media_task in
      ground
        (arith, bytes_equal_iff k j, lookup-update k j (record e { media_task = some t }) e r found)
]
lookup-apply r (transition_op k next) j h = elim (Option-cases (lookup k r)) [
  | inl e ↦ unfold transition in ground (arith, bytes_equal_iff k j)
  | inr (e, found) ↦
      unfold transition in
      ground (
        arith,
        bytes_equal_iff k j,
        lookup-update k j (record e { session = (transition_to e.session next).0 }) e r found,
      )
]
lookup-apply r (remove_op k) j h = elim (Option-cases (lookup k r)) [
  | inl e ↦ unfold remove in ground (arith, bytes_equal_iff k j)
  | inr (e, found) ↦ unfold remove in ground (arith, bytes_equal_iff k j, lookup-delete k j r h)
]
lookup-apply r abort_all_op j h = unfold abort_all lookup in refl

update-IsKeyed :
    (k : Bytes) (e f : CallEntry) (r : CallRegistry)
    → IsKeyed r
    → lookup k r ≡ some f
    → e.session.call_id ≡ f.session.call_id
    → IsKeyed (update k e r)
unfolding lookup update
update-IsKeyed k e f [] h found same = cc
update-IsKeyed k e f ((i, g) ∷ r) (hg, fresh, h) found same = elim (Bool-cases (bytes_equal i k)) [
  | inl b ↦ let here : some g ≡ some f = rw b at found in rw b (ground arith, fresh, h)
  | inr b ↦
      let there : lookup k r ≡ some f = rw b at found in
      rw b (
        hg,
        ground (arith, lookup-update k i e f r there, bytes_equal_iff i k, bytes_equal_iff k i),
        update-IsKeyed k e f r h there same,
      )
]

delete-IsKeyed : (k : Bytes) (r : CallRegistry) → IsKeyed r → IsKeyed (delete k r)
unfolding delete
delete-IsKeyed k [] h = h
delete-IsKeyed k ((i, g) ∷ r) (hg, fresh, h) = elim (Bool-cases (bytes_equal i k)) [
  | inl b ↦ rw (b) h
  | inr b ↦ rw (b) (hg, ground (arith, lookup-delete k i r h), delete-IsKeyed k r h)
]

insert-IsKeyed : (r : CallRegistry) (s : CallSession) → IsKeyed r → IsKeyed (insert r s).0
insert-IsKeyed r s h = elim (Option-cases (lookup s.call_id r)) [
  | inl e ↦
      let fresh : CallEntry = record { session = s; media_task = none } in
      let added : (insert r s).0 ≡ (s.call_id, fresh) ∷ r = unfold insert in ground arith in
      rw added (refl, e, h)
  | inr (f, e) ↦ let kept : (insert r s).0 ≡ r = unfold insert in ground arith in rw kept h
]

-- An operation on the entry of one call, found or not.
module _ (k : Bytes) (r : CallRegistry) (h : IsKeyed r) where
  set_media_task-IsKeyed : (t : ℕ) → IsKeyed (set_media_task r k t).0
  set_media_task-IsKeyed t = elim (Option-cases (lookup k r)) [
    | inl e ↦
        let kept : (set_media_task r k t).0 ≡ r = unfold set_media_task in ground arith in rw kept h
    | inr (f, e) ↦
        let f' : CallEntry = record f { media_task = some t } in
        let set : (set_media_task r k t).0 ≡ update k f' r =
          unfold set_media_task in ground arith in
        rw set (update-IsKeyed k f' f r h e refl)
  ]

  transition-IsKeyed : (next : CallPhase) → IsKeyed (transition r k next).0
  transition-IsKeyed next = elim (Option-cases (lookup k r)) [
    | inl e ↦
        let kept : (transition r k next).0 ≡ r = unfold transition in ground arith in rw kept h
    | inr (f, e) ↦
        let f' : CallEntry = record f { session = (transition_to f.session next).0 } in
        let set : (transition r k next).0 ≡ update k f' r = unfold transition in ground arith in
        rw set (update-IsKeyed k f' f r h e (transition_to-call_id f.session next))
  ]

  remove-IsKeyed : IsKeyed (remove r k).0
  remove-IsKeyed = elim (Option-cases (lookup k r)) [
    | inl e ↦ let kept : (remove r k).0 ≡ r = unfold remove in ground arith in rw kept h
    | inr (f, e) ↦
        let cut : (remove r k).0 ≡ delete k r = unfold remove in ground arith in
        rw cut (delete-IsKeyed k r h)
  ]

apply-IsKeyed : (r : CallRegistry) (o : Operation) → IsKeyed r → IsKeyed (apply r o).0
unfolding apply
apply-IsKeyed r (insert_op s) h = insert-IsKeyed r s h
apply-IsKeyed r (set_media_task_op k t) h = set_media_task-IsKeyed k r h t
apply-IsKeyed r (transition_op k next) h = transition-IsKeyed k r h next
apply-IsKeyed r (remove_op k) h = remove-IsKeyed k r h
apply-IsKeyed r abort_all_op h = unfold abort_all in tt

apply_all-IsKeyed :
    (r : CallRegistry) (os : List Operation) → IsKeyed r → IsKeyed (apply_all r os).0
unfolding apply_all
apply_all-IsKeyed r [] h = h
apply_all-IsKeyed r (o ∷ os) h = apply_all-IsKeyed (apply r o).0 os (apply-IsKeyed r o h)

-- What the map does over a run of operations.
abbrev pub apply_map_all : List Operation → CallMap → CallMap
apply_map_all [] m = m
apply_map_all (o ∷ os) m = apply_map_all os (apply_map o m)

-- Over any run of Insert, SetMediaTask, Transition, Remove and AbortAll on a registry keyed by
-- call id, the registry answers as a map from call ids to entries on which each operation acts at
-- one key only, and Insert never replaces an entry.
pub lookup-apply_all :
    (r : CallRegistry) (os : List Operation) (j : Bytes)
    → IsKeyed r
    → lookup j (apply_all r os).0 ≡ apply_map_all os (λ k. lookup k r) j
unfolding apply_all
lookup-apply_all r [] j h = refl
lookup-apply_all r (o ∷ os) j h =
    lookup-apply_all (apply r o).0 os j (apply-IsKeyed r o h)
    ∙ ap (λ (m : CallMap). apply_map_all os m j) (fun_ext (λ k. lookup-apply r o k h))

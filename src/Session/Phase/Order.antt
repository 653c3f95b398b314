-- ===== src/Session/Phase/Order.antt =====
-- Which phases a call can go through.
use meowcaller.Base.{
  ℕ, ◌+◌, ◌==◌, if◌then◌else◌, ◌≤◌, ◌≡◌, ap, ◌⊎◌, inl, inr, true, false, List, [], ◌∷◌, arith,
}
use meowcaller.Session.Phase.{
  CallPhase, idle, calling, ringing, connecting, active, ended, CallSession, transition_to,
}

-- A run of requests, refused ones among them.
unfoldable pub request_all : CallSession → List CallPhase → CallSession
request_all s [] = s
request_all s (next ∷ rest) = request_all (transition_to s next).0 rest

abbrev pub rank : CallPhase → ℕ
rank idle = 0
rank calling = 1
rank ringing = 2
rank connecting = 3
rank active = 4
rank ended = 5

-- A request is refused with no change, or it moves the call on and sets the phase asked for.
transition_to-cases :
    (s : CallSession) (next : CallPhase)
    → (((transition_to s next).1 ≡ false) × ((transition_to s next).0 ≡ s))
      ⊎ (((transition_to s next).1 ≡ true)
          × ((transition_to s next).0 ≡ record s { phase = next })
          × (rank s.phase ≤ rank next))
unfolding transition_to
transition_to-cases s next = ground arith

rank-le : (p : CallPhase) → rank p ≤ 5
rank-le p = ground arith

-- How many requests of a run change the phase.
unfoldable pub changes : CallSession → List CallPhase → ℕ
changes s [] = 0
changes s (next ∷ rest) =
    let t = (transition_to s next).0 in
    (if rank t.phase == rank s.phase then 0 else 1) + changes t rest

-- With the phases ranked from idle at 0 to ended at 5, over any run of requests to TransitionTo,
-- refused ones among them, the rank of the first phase and the number of requests that change the
-- phase add up to no more than the rank of the last phase, and to no more than 5.
pub changes-rank :
    (s : CallSession) (rs : List CallPhase)
    → (rank s.phase + changes s rs ≤ rank (request_all s rs).phase)
      × (rank s.phase + changes s rs ≤ 5)
unfolding request_all changes
changes-rank s [] = omega (arith, rank-le s.phase)
changes-rank s (next ∷ rest) =
    let t = (transition_to s next).0 in
    ground (arith, transition_to-cases s next, changes-rank t rest)

-- An ended call stays as it is over any run of requests, and refuses the next one.
pub ended_absorbs :
    (s : CallSession) (rs : List CallPhase) (next : CallPhase)
    → s.phase ≡ ended
    → (request_all s rs ≡ s) × (transition_to (request_all s rs) next ≡ (request_all s rs, false))
unfolding request_all transition_to
ended_absorbs s [] next h = ground arith
ended_absorbs s (r ∷ rs) next h = ground (arith, ended_absorbs s rs next h)

-- The requests that a call has still to accept before it is active.
abbrev pub remaining : CallPhase → List CallPhase
remaining idle = calling ∷ ringing ∷ connecting ∷ active ∷ []
remaining calling = ringing ∷ connecting ∷ active ∷ []
remaining ringing = connecting ∷ active ∷ []
remaining connecting = active ∷ []
remaining active = []
remaining ended = []

-- `xs` can be read off `ys` in order, with gaps.
pub data IsWithin {ℓ} {A : Type ℓ} : List A → List A → Type ℓ where
  nil : {ys : List A} → IsWithin [] ys
  keep : {x : A} {xs ys : List A} → IsWithin xs ys → IsWithin (x ∷ xs) (x ∷ ys)
  skip : {y : A} {xs ys : List A} → IsWithin xs ys → IsWithin xs (y ∷ ys)

progress :
    (s : CallSession) (next : CallPhase)
    → let t = (transition_to s next).0 in
      (remaining s.phase ≡ remaining t.phase)
      ⊎ (remaining s.phase ≡ next ∷ remaining t.phase)
      ⊎ (t.phase ≡ ended)
unfolding transition_to
progress s next = ground arith

-- A call that is active after any run of requests to TransitionTo, refused ones among them, was
-- given, in this order, each request that lay between its first phase and active.
pub active_needs :
    (s : CallSession) (rs : List CallPhase)
    → (request_all s rs).phase ≡ active
    → IsWithin (remaining s.phase) rs
unfolding request_all
active_needs s [] h = rw h nil
active_needs s (next ∷ rest) h =
    let t = (transition_to s next).0 in
    elim (progress s next) [
      | inl same ↦ rw same (skip (active_needs t rest h))
      | inr (inl step) ↦ rw step (keep (active_needs t rest h))
      | inr (inr over) ↦
          let stays = ap (λ (u : CallSession). u.phase) (ended_absorbs t rest active over).0 in
          cc (stays, h, over)
    ]

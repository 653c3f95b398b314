-- ===== src/Session/Phase/Tests.antt =====
-- The life of an outgoing call.
use meowcaller.Base.{◌+◌, ◌≤◌, ◌≡◌, refl, false, List, [], ◌∷◌}
use meowcaller.Session.Phase.{
  outgoing, CallPhase, idle, calling, ringing, connecting, active, CallSession, transition_to,
}
use meowcaller.Session.Phase.Order.{
  request_all, changes, rank, changes-rank, IsWithin, active_needs,
}

abbrev placed : CallSession
placed = record {
  call_id = b'a' ∷ [];
  peer_jid = [];
  call_creator = [];
  direction = outgoing;
  is_video = false;
  phase = idle;
}

abbrev answered : List CallPhase
answered = active ∷ calling ∷ ringing ∷ idle ∷ connecting ∷ active ∷ []

answered-active : (request_all placed answered).phase ≡ active
answered-active = unfold request_all transition_to in refl

active_needs_example : IsWithin (calling ∷ ringing ∷ connecting ∷ active ∷ []) answered
active_needs_example = active_needs placed answered answered-active

changes-rank_example :
    (rank placed.phase + changes placed answered ≤ rank (request_all placed answered).phase)
    × (rank placed.phase + changes placed answered ≤ 5)
changes-rank_example = changes-rank placed answered

-- ===== src/Session/Phase.antt =====
-- The call state machine of session.go.
pub mod Order
mod Tests
use meowcaller.Base.{if◌then◌else◌, Bool, true, false, Bytes}

pub data CallDirection : Type 0 where
  outgoing incoming : CallDirection

pub data CallPhase : Type 0 where
  idle calling ringing connecting active ended : CallPhase

-- Strings are lists of bytes; a JID is kept as its text.
pub record CallSession : Type 0 where
  pub call_id : Bytes
  pub peer_jid : Bytes
  pub call_creator : Bytes
  pub direction : CallDirection
  pub is_video : Bool
  pub phase : CallPhase

-- `NewOutgoingSession`
unfoldable pub new_outgoing_session : Bytes → Bytes → Bytes → CallSession
new_outgoing_session call_id peer_jid call_creator = record {
  call_id = call_id;
  peer_jid = peer_jid;
  call_creator = call_creator;
  direction = outgoing;
  is_video = false;
  phase = idle;
}

-- `NewIncomingSession`
unfoldable pub new_incoming_session : Bytes → Bytes → Bytes → CallSession
new_incoming_session call_id peer_jid call_creator = record {
  call_id = call_id;
  peer_jid = peer_jid;
  call_creator = call_creator;
  direction = incoming;
  is_video = false;
  phase = ringing;
}

abbrev is_outgoing : CallDirection → Bool
is_outgoing outgoing = true
is_outgoing incoming = false

-- The `switch` of `TransitionTo`, its cases in order.
legal : CallDirection → CallPhase → CallPhase → Bool
legal d ended next = false
legal d idle ended = true
legal d calling ended = true
legal d ringing ended = true
legal d connecting ended = true
legal d active ended = true
legal d idle calling = is_outgoing d
legal d calling ringing = true
legal d ringing connecting = true
legal d connecting active = true
legal d idle idle = true
legal d calling calling = true
legal d ringing ringing = true
legal d connecting connecting = true
legal d active active = true
legal d _ _ = false

-- `TransitionTo`
unfoldable pub transition_to : CallSession → CallPhase → CallSession × Bool
unfolding legal
transition_to s next =
    let ok = legal s.direction s.phase next in (if ok then record s { phase = next } else s, ok)

-- `IsActive` and `IsEnded`
unfoldable pub is_active : CallSession → Bool
is_active s = elim s.phase [ active ↦ true | _ ↦ false ]

unfoldable pub is_ended : CallSession → Bool
is_ended s = elim s.phase [ ended ↦ true | _ ↦ false ]

-- ===== src/Session/Registry/Tests.antt =====
-- Two calls, one of which is inserted twice.
use meowcaller.Base.{ℕ, ◌+◌, ◌≡◌, false, List, [], ◌∷◌, ◌++◌}
use meowcaller.Session.Phase.{CallSession, outgoing, idle, calling}
use meowcaller.Session.Registry.{lookup, held}
use meowcaller.Session.Registry.Tasks.{
  Operation, insert_op, set_media_task_op, transition_op, remove_op, abort_all_op, apply_all, count,
  handed_all, apply_all-count, teardown,
}
use meowcaller.Session.Registry.Lookup.{apply_map_all, lookup-apply_all}

abbrev call_named : ℕ → CallSession
call_named n = record {
  call_id = n ∷ [];
  peer_jid = [];
  call_creator = [];
  direction = outgoing;
  is_video = false;
  phase = idle;
}

abbrev sample_run : List Operation
sample_run =
    insert_op (call_named 1)
    ∷ set_media_task_op (1 ∷ []) 7
    ∷ insert_op (call_named 2)
    ∷ set_media_task_op (1 ∷ []) 8
    ∷ transition_op (1 ∷ []) calling
    ∷ insert_op (call_named 1)
    ∷ set_media_task_op (3 ∷ []) 9
    ∷ remove_op (2 ∷ [])
    ∷ []

lookup-apply_all_example :
    lookup (1 ∷ []) (apply_all [] sample_run).0
    ≡ apply_map_all sample_run (λ k. lookup k []) (1 ∷ [])
lookup-apply_all_example = lookup-apply_all [] sample_run (1 ∷ []) tt

apply_all-count_example :
    count 7 (held (apply_all [] sample_run).0) + count 7 (apply_all [] sample_run).1
    ≡ count 7 (held []) + count 7 (handed_all sample_run)
apply_all-count_example = apply_all-count [] sample_run 7

teardown_example :
    ((apply_all [] (sample_run ++ abort_all_op ∷ [])).0 ≡ [])
    × (count 8 (apply_all [] (sample_run ++ abort_all_op ∷ [])).1 ≡ count 8 (handed_all sample_run))
teardown_example = teardown sample_run 8

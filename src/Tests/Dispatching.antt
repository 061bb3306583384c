-- ===== src/Tests/Dispatching.antt =====
-- Witnesses for Dispatch.antt: node 2 asks node 1 for a part of a file, and for a directory.
use puppypeer.Prelude.{
  ℕ, ◌+◌, ◌≡◌, refl, String, false, some, List, [], ◌∷◌, codes, arith, ok, text_eq, Distinct,
}
use puppypeer.FilePath.{FilePath, starts_with}
use puppypeer.Rule.{allows}
use puppypeer.State.{State, has_fs_access}
use puppypeer.State.Access.{MayAccess}
use puppypeer.Files.{FileChunk, read_file}
use puppypeer.Files.Reading.{IsChunkOf}
use puppypeer.Wire
use puppypeer.Wire.{PeerReq, PeerRes, file_chunk}
use puppypeer.Node.{read_file_res, can_access, handle_puppy_peer_req, read_access}
use puppypeer.Dispatch.{
  App, Net, Input, Effect, command, event, read_file_cmd, list_dir_cmd, response, requested,
  resolved, responded, ran, run_all, step, handle_cmd, handle_event, handle_request, read_file_here,
  list_dir_here,
}
use puppypeer.Dispatch.Pending.{
  Sender, Answer, lookup, remove, put, complete, decode_chunk, await_chunk, await_entries,
  chunk_result,
}
use puppypeer.Dispatch.Senders.{answered, waiting, brought}
use puppypeer.Dispatch.Answered.{run_all-answered}
use puppypeer.Dispatch.Calls.{run_all-round_trip, sender_of, Tells, remote_read_lem}
use puppypeer.Tests.MemoryOs.{MemoryDisk, memory_os, memory_laws}
use puppypeer.Tests.Fixtures.{home, test_host, test_disk, test_node}

abbrev a_path : FilePath
a_path = codes "/srv/a"

abbrev away : State
away = record home { me = 2 }

abbrev client : App MemoryDisk
client = record {
  node = record { state = away; poisoned = false; disk = λ p. [] };
  pending_requests = [];
}

abbrev serving : App MemoryDisk
serving = record { node = test_node; pending_requests = [] }

abbrev net_at : ℕ → Net
net_at id = record { request_id = id; dial = λ a. ok tt }

abbrev part : FileChunk
part = record { offset = 1; bytes = 2 ∷ []; eof = false }

abbrev no_debug : PeerRes → String
no_debug res = ""

abbrev session : List (Net × Input)
session =
    (net_at 7, command (read_file_cmd 1 a_path 1 (some 1) 50))
    ∷ (net_at 8, event (response 7 (file_chunk part)))
    ∷ (net_at 9, command (list_dir_cmd 1 a_path 51))
    ∷ []

abbrev session_effects : List Effect
session_effects =
    requested 7 1 (Wire.read_file a_path 1 (some 1))
    ∷ resolved 50 (chunk_result (ok part))
    ∷ requested 9 1 (Wire.list_dir a_path)
    ∷ []

abbrev at_end : App MemoryDisk
at_end = record client { pending_requests = (9, await_entries 51) ∷ [] }

session_runs : run_all test_host no_debug client session ≡ ran at_end session_effects
unfolding run_all step handle_cmd handle_event read_file_here list_dir_here lookup remove put
    complete decode_chunk
session_runs = refl

fresh_ids : Distinct (λ i. i.0.request_id) session
fresh_ids = (((λ e. omega arith), ((λ e. omega arith), tt)), (((λ e. omega arith), tt), (tt, tt)))

run_all-answered_example :
    answered 51 session_effects + waiting 51 at_end.pending_requests
    ≡ brought 51 session + waiting 51 client.pending_requests
run_all-answered_example =
    run_all-answered test_host no_debug 51 client at_end session session_effects tt
      (fresh_ids, (tt, (tt, (tt, tt)))) session_runs

run_all-round_trip_example :
    (tx : Sender) × (a : Answer) × (sender_of (list_dir_cmd 1 a_path 51) ≡ some tx)
    × Tells no_debug (list_dir_cmd 1 a_path 51) (file_chunk part) a
    × (run_all test_host no_debug client (
          (net_at 7, command (list_dir_cmd 1 a_path 51))
          ∷ (net_at 8, event (response 7 (file_chunk part)))
          ∷ [])
        ≡ ran client (requested 7 1 (Wire.list_dir a_path) ∷ resolved tx a ∷ []))
run_all-round_trip_example =
    run_all-round_trip test_host no_debug client (net_at 7) (net_at 8) (list_dir_cmd 1 a_path 51) 1
      (Wire.list_dir a_path) (await_entries 51) (file_chunk part) tt refl (λ e. omega arith) refl

served :
    handle_request test_host serving 3 2 (Wire.read_file a_path 1 (some 1))
    ≡ ran serving (responded 3 (file_chunk part) ∷ [])
unfolding handle_request handle_puppy_peer_req read_file_res can_access has_fs_access starts_with
    allows read_file text_eq
served = refl

got : complete no_debug (await_chunk 50) (file_chunk part) ≡ (50, chunk_result (ok part))
unfolding complete decode_chunk
got = refl

remote_read_lem_example :
    (canonical : FilePath) × (memory_os.canonicalize a_path test_disk ≡ ok canonical)
    × MayAccess home 2 canonical read_access
    × IsChunkOf (test_disk canonical) 1 part
remote_read_lem_example =
    remote_read_lem test_host memory_laws no_debug serving serving 3 2 a_path 1 (some 1) 50
      (file_chunk part) part served got

-- ===== src/Api/Tests.antt =====
-- internal/api/http.go: the theorems at work.
use shard_zero.Prelude.{◌≡◌, refl, false, none, [], bytes, text_eq, valid_utf8}
use shard_zero.Prelude.Dict.{get}
use shard_zero.StateMachine.{Command, invalid, bad_key, validate, check, apply, no_result}
use shard_zero.Raft.Samples.{leader_a}
use shard_zero.Api.Handlers.{
  Decoded, decoded, AdminRequest, admin, write, write_decoded, answer_write, write_standalone,
  read_standalone,
}
use shard_zero.Api.Admission.{Guarded, admin-IsGuarded}
use shard_zero.Api.Serving.{put_request, put_command, found_answer, put_get}
use shard_zero.Database.{Database, execute, run_checked, run_written, append_command}
use shard_zero.Raft.Store.Journal.{stored}
use shard_zero.StateMachine

abbrev pause : AdminRequest
pause = record { token = bytes "secret"; method = bytes "POST"; path = bytes "/admin/pause" }

admin-IsGuarded_example :
    Guarded (bytes "secret") pause leader_a (admin (bytes "secret") pause leader_a)
admin-IsGuarded_example = admin-IsGuarded (bytes "secret") pause leader_a

abbrev empty : Database
empty = record {
  machine = StateMachine.new;
  wal = record { commands = []; writes = 0; outcome = λ _. stored };
  broken = false;
  closed = false;
}

abbrev put_x : Decoded
put_x = decoded (put_request (bytes "alice") 1 (bytes "1"))

new_request :
    check empty.machine (put_command (bytes "x") (bytes "alice") 1 (bytes "1"))
    ≡ (no_result, false, none)
unfolding check validate valid_utf8 text_eq get
new_request = refl

accepted : (write_standalone (bytes "SET") (bytes "x") put_x empty).1.status ≡ 200
unfolding write write_decoded execute run_checked run_written append_command check validate
    valid_utf8 text_eq get apply answer_write
accepted = refl

put_get_example :
    read_standalone (bytes "x") (write_standalone (bytes "SET") (bytes "x") put_x empty).0
    ≡ found_answer (bytes "1")
put_get_example = put_get empty (bytes "x") (bytes "alice") 1 (bytes "1") new_request accepted

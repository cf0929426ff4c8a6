-- ===== src/Tests/Servers.antt =====
-- The pool and the JSON helpers at small inputs.
use tinyllama_c.Prelude.{
  ℕ, ◌+◌, ◌<◌, ◌≡◌, ◌⊎◌, inl, refl, true, List, [], ◌∷◌, ◌++◌, none, some, arith, length, codes,
}
use tinyllama_c.Server.Pool.{
  ClientJob, worker_pool_create, worker_pool_submit, worker_turn, request_stop, returned, System,
  start, after_submit, submit, quit, shut, Reachable, first, next,
}
use tinyllama_c.Server.Pool.Ring.{
  contents, Submits, Turns, worker_pool_create-IsRing, worker_pool_submit-Submits,
  worker_turn-Turns,
}
use tinyllama_c.Server.Pool.Traces.{Reachable-fifo, Reachable-drained}
use tinyllama_c.Http.{
  http_body, json_escape_str, json_unescape, json_get_string, search_text, get_string_from, strstr,
  candidate, skip_blanks, is_blank, string_length, further,
}
use tinyllama_c.Http.Escape.{length-json_escape_str, json_unescape-escape}
use tinyllama_c.Http.Request.{SeparatorAt, http_body-first}
use tinyllama_c.Vocab.Key.{key_eq}

abbrev job : ClientJob
job = record { fd = 7; body = codes "hi" }

submit_example :
    Submits worker_pool_create job
      ((worker_pool_submit worker_pool_create job).0)
      ((worker_pool_submit worker_pool_create job).1)
submit_example = worker_pool_submit-Submits worker_pool_create job worker_pool_create-IsRing

turn_example : Turns worker_pool_create (worker_turn worker_pool_create)
turn_example = worker_turn-Turns worker_pool_create worker_pool_create-IsRing

submitted : Reachable 2 (after_submit (start 2) job)
submitted = next (first refl) (submit job refl)

fifo_example :
    (after_submit (start 2) job).taken ++ contents ((after_submit (start 2) job).pool)
    ≡ (after_submit (start 2) job).accepted
fifo_example = Reachable-fifo 2 (after_submit (start 2) job) submitted

abbrev stopped : System
stopped = record (start 1) { pool = request_stop worker_pool_create }

abbrev one_gone : System
one_gone = record stopped { worker = returned ∷ [] }

one_gone-Reachable : Reachable 1 one_gone
unfolding start worker_turn request_stop worker_pool_create
one_gone-Reachable = next (next (first refl) (shut refl)) (quit 0 refl refl refl)

drained_example : (one_gone.pool.stop ≡ true) × (one_gone.taken ≡ one_gone.accepted)
drained_example = Reachable-drained 1 one_gone 0 one_gone-Reachable refl

unescape_example : json_unescape (json_escape_str 20 (codes "a\"b")) ≡ codes "a\"b"
unescape_example =
    json_unescape-escape 20 (codes "a\"b")
      (inl (omega arith), (inl (omega arith), (inl (omega arith), tt))) (omega arith)

escape_room_example : length (json_escape_str 9 (codes "\"\"\"\"\"\"")) < 9
escape_room_example = length-json_escape_str 9 (codes "\"\"\"\"\"\"") (omega arith)

abbrev request : List ℕ
request = b'G' ∷ 13 ∷ 10 ∷ 13 ∷ 10 ∷ b'x' ∷ []

body_example :
    ((http_body request ≡ none) × ((j : ℕ) → SeparatorAt j request → ⊥))
    ⊎ ((k : ℕ) × (http_body request ≡ some (k + 4))
        × SeparatorAt k request
        × ((j : ℕ) → j < k → SeparatorAt j request → ⊥))
body_example = http_body-first request

abbrev json : List ℕ
json = codes "{\"k\": \"v\"}"

get_run : json_get_string json (codes "k") ≡ some (codes "v\"}", 1)
unfolding json_get_string search_text get_string_from strstr candidate skip_blanks is_blank
    string_length further key_eq
get_run = refl

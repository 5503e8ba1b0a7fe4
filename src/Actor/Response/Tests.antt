-- ===== src/Actor/Response/Tests.antt =====
-- actor/response.go: three senders and one reader.
use distributed_framework.Actor.Response.{
  Response, new_response, send, receive, take_result, Reach, here, next, sends, receives, buffered,
  response_lem,
}
use distributed_framework.Common.{
  ℕ, ◌+◌, ◌≤◌, ◌≡◌, refl, false, some, [], ◌∷◌, ◌++◌, length, nat_keys, string_keys,
}

abbrev first : Response ℕ
first = new_response "local" "7"

abbrev three : Response ℕ
three = send (send (send first 1) 2) 3

abbrev rest : Response ℕ
rest = record three { result = some 2; waiting = 3 ∷ [] }

abbrev last : Response ℕ
last = take_result three 1 rest

received : receive three ≡ some (1, rest)
unfolding receive send new_response
received = refl

unfinished : three.finished ≡ false
unfolding send new_response
unfinished = refl

last-Reach : Reach first last
last-Reach =
    next
      (next (next (next here (sends first 1)) (sends (send first 1) 2))
        (sends (send (send first 1) 2) 3))
      (receives three rest 1 unfinished received)

response_lem_example :
    (last.sent ≡ buffered last.taken ++ (buffered last.result ++ last.waiting))
    × (length last.sent ≤ length last.waiting + 2)
response_lem_example = response_lem "local" "7" last last-Reach

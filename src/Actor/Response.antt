-- ===== src/Actor/Response.antt =====
-- actor/response.go: the answer of a request. `result` is a channel with room for one message; a
-- sender that finds it full waits.
mod Tests
use distributed_framework.Actor.Pid.{Pid, new_pid}
use Prim.Native.String.{◌++◌ as str_append}
use distributed_framework.Common.{
  ◌≤◌, String, ◌≡◌, Bool, true, false, Option, none, some, List, [], ◌∷◌, ◌++◌, length, nat_keys,
  string_keys, inl, inr, arith, Option-cases, ◌+◌, refl, append-nil, append_assoc,
}

-- `taken` is what `Result` has received, `finished` whether it has returned, `sent` the messages
-- of all calls of `Send` in order, and `waiting` those whose calls have not returned.
pub record Response (M : Type 0) : Type 0 where
  pub pid : Pid
  pub result : Option M
  pub waiting : List M
  pub taken : Option M
  pub finished : Bool
  pub sent : List M

-- `drawn` is the text of the number that is drawn.
unfoldable pub new_response : {M : Type 0} → String → String → Response M
unfolding new_pid
new_response address drawn = record {
  pid = new_pid address (str_append "response" (str_append "/" drawn));
  result = none;
  waiting = [];
  taken = none;
  finished = false;
  sent = [];
}

module _ {M : Type 0} where
  unfoldable pub send : Response M → M → Response M
  send r m = elim r.result [
    | none ↦ record r { result = some m; sent = r.sent ++ m ∷ [] }
    | some first ↦ record r { waiting = r.waiting ++ m ∷ []; sent = r.sent ++ m ∷ [] }
  ]

  -- A receive from the channel lets the first sender that waits in; `none` where there is nothing
  -- to receive.
  unfoldable pub receive : Response M → Option (M × Response M)
  receive r = elim r.result [
    | none ↦ none
    | some m ↦ some (
      m,
      elim r.waiting [
        | [] ↦ record r { result = none }
        | w ∷ ws ↦ record r { result = some w; waiting = ws }
      ],
    )
  ]

  -- `Result`: the select takes a message or ends by the timeout.
  unfoldable pub take_result : Response M → M → Response M → Response M
  take_result r m r' = record r' { taken = some m; finished = true }

  pub data Step : Response M → Response M → Type 0 where
    sends : (r : Response M) (m : M) → Step r (send r m)
    receives :
        (r r' : Response M) (m : M)
        → r.finished ≡ false
        → receive r ≡ some (m, r')
        → Step r (take_result r m r')
    times_out : (r : Response M) → r.finished ≡ false → Step r (record r { finished = true })

  pub data Reach (s : Response M) : Response M → Type 0 where
    here : Reach s s
    next : {t u : Response M} → Reach s t → Step t u → Reach s u

  abbrev pub buffered : Option M → List M
  buffered none = []
  buffered (some m) = m ∷ []

  -- What was sent is what was taken, what stands in the channel and what waits, in this order;
  -- only a `Result` that has returned has taken; and nobody waits for an empty channel.
  record Good (r : Response M) : Type 0 where
    order : r.sent ≡ buffered r.taken ++ (buffered r.result ++ r.waiting)
    untaken : r.finished ≡ false → r.taken ≡ none
    full : r.result ≡ none → r.waiting ≡ []

  send-Good : (r : Response M) (m : M) → Good r → Good (send r m)
  unfolding send
  send-Good r m g = elim (Option-cases r.result) [
    | inl free ↦ record {
      order = ground (arith, append-nil (buffered r.taken), g.full free);
      untaken = ground arith;
      full = ground arith;
    }
    | inr (first, there) ↦ record {
      order = ground (arith, append_assoc (buffered r.taken) (first ∷ r.waiting) (m ∷ []));
      untaken = ground arith;
      full = ground arith;
    }
  ]

  Step-Good : {r s : Response M} → Step r s → Good r → Good s
  unfolding take_result receive
  Step-Good (sends r m) g = send-Good r m g
  Step-Good (receives r r' m f e) g = record {
    order = ground (arith, g.untaken f, g.full);
    untaken = λ h. cc;
    full = ground (arith, g.full);
  }
  Step-Good (times_out r f) g = record { order = g.order; untaken = λ h. cc; full = g.full }

  Reach-Good : {s r : Response M} → Good s → Reach s r → Good r
  Reach-Good g here = g
  Reach-Good g (next h st) = Step-Good st (Reach-Good g h)

  new-Good : (address drawn : String) → Good (new_response address drawn)
  unfolding new_response
  new-Good address drawn = record { order = refl; untaken = λ h. refl; full = λ h. refl }

  two_returned :
      (t b : Option M) (w : List M) → length (buffered t ++ (buffered b ++ w)) ≤ length w + 2
  two_returned none none w = omega arith
  two_returned none (some m) w = omega arith
  two_returned (some n) none w = omega arith
  two_returned (some n) (some m) w = omega arith

  -- In every interleaving of sends to a response with its one Result, the messages sent are, in
  -- order, the one that Result took, the one in the channel and those of senders that wait; so at
  -- most two sends have returned.
  pub response_lem :
      (address drawn : String) (r : Response M)
      → Reach (new_response address drawn) r
      → (r.sent ≡ buffered r.taken ++ (buffered r.result ++ r.waiting))
        × (length r.sent ≤ length r.waiting + 2)
  response_lem address drawn r h =
      let g = Reach-Good (new-Good address drawn) h in
      (g.order, rw (g.order) (two_returned r.taken r.result r.waiting))

-- ===== src/Cluster/Client/Calls.antt =====
-- cluster/cluster.go and cluster/agent.go: what the node's functions make of the agent's answers.
use distributed_framework.Common.Dict.{Dict, lookup, has, keys}
use distributed_framework.Actor.Pid.{Pid}
use distributed_framework.Cluster.Activation.{SelectMemberFunc}
use distributed_framework.Cluster.Agent.{Agent, receive, contains_name, handle_get_active}
use distributed_framework.Cluster.Messages.{Answer, Effect, get_kinds, get_active, respond}
use distributed_framework.Cluster.Client.{Response, no_answer, replied, has_kind, get_active_by_id}
use Prim.Native.String.{len as str_len}
use distributed_framework.Common.{
  ◌<◌, String, ◌≡◌, refl, Bool, List, [], ◌∷◌, arith, nat_keys, string_keys,
}

-- What a request gets: the first answer among the effects, or none before the timeout.
unfoldable pub first_reply : List Effect → Response
first_reply [] = no_answer
first_reply (respond r ∷ es) = replied r
first_reply (e ∷ es) = first_reply es

contains_name-keys :
    (d : Dict String Bool) (name : String) → contains_name (keys d) name ≡ has name d
unfolding contains_name has
contains_name-keys [] name = refl
contains_name-keys ((k, v) ∷ d) name = ground (arith, contains_name-keys d name)

-- A node's HasKind says whether its agent knows the kind, and GetActiveByID gives the PID that the
-- agent has under an ID that is not empty; the agent stays as it is.
pub calls_lem :
    (random : SelectMemberFunc) (ask : Pid → String → String → Answer) (drawn : String) (a : Agent)
    (name id : String)
    → 0 < str_len id
    → (has_kind name (first_reply (receive random ask drawn a get_kinds).1) ≡ has name a.kinds)
      × (get_active_by_id (first_reply (receive random ask drawn a (get_active id "")).1)
          ≡ lookup id a.activated)
      × ((receive random ask drawn a (get_active id "")).0 ≡ a)
unfolding receive first_reply has_kind get_active_by_id handle_get_active
calls_lem random ask drawn a name id h = (contains_name-keys a.kinds name, ground arith, refl)

-- ===== src/Actor/Engine/Fresh.antt =====
-- actor/engine.go: a new engine and its event stream.
use distributed_framework.Common.Dict.{lookup, has, insert}
use distributed_framework.Actor.Pid.{Pid, new_pid}
use distributed_framework.Actor.Engine.{Engine, add, spawn, new_engine, bare_engine, new_registry}
use Prim.Native.String.{◌++◌ as str_append}
use distributed_framework.Common.{
  String, ◌≡◌, refl, Option, none, some, [], ◌∷◌, arith, nat_keys, string_keys, subst, Bool, false,
  ==_refl, true,
}
use distributed_framework.Actor.Engine.Routing.{Wired}

-- The event stream that a new engine spawns.
pub stream_pid : Option String → String → Pid
unfolding bare_engine new_pid
stream_pid remote id =
    new_pid (bare_engine remote).address (str_append "eventstream" (str_append "/" id))

-- The event stream of an engine, as `NewEngine` makes it.
ready : Option String → String → Engine
unfolding bare_engine new_registry
ready remote id = record (bare_engine remote) {
  registry = record { entries = ((stream_pid remote id).id, stream_pid remote id) ∷ [] };
  event_stream = some (stream_pid remote id);
}

ready-Wired :
    (remote : Option String) (id : String) → Wired (ready remote id) (stream_pid remote id)
unfolding ready stream_pid lookup
ready-Wired remote id = record {
  stream = refl;
  here = refl;
  registered = ground (arith, ==_refl (stream_pid remote id).id);
}

new_engine-ready :
    (remote : Option String) (started : Bool) (id : String) (e : Engine)
    → new_engine remote started id ≡ some e
    → ready remote id ≡ e
unfolding new_engine spawn add bare_engine new_registry has insert ready stream_pid new_pid
new_engine-ready none started id e h = cc
new_engine-ready (some a) true id e h = cc
new_engine-ready (some a) false id e h = cc

-- An engine that NewEngine makes, with or without a remote, has its event stream registered on its
-- own address, under the PID that it keeps for it.
pub new_engine-Wired :
    (remote : Option String) (started : Bool) (id : String) (e : Engine)
    → new_engine remote started id ≡ some e
    → Wired e (stream_pid remote id)
new_engine-Wired remote started id e h =
    subst (λ e. Wired e (stream_pid remote id)) (new_engine-ready remote started id e h)
      (ready-Wired remote id)

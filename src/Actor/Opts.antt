-- ===== src/Actor/Opts.antt =====
-- actor/opts.go: the options of an actor. The producers `P`, the middlewares `W` and the contexts
-- `C` are values that the options only carry. Durations are in nanoseconds.
use distributed_framework.Common.{ℕ, ◌%◌, ◌^◌, String, List, [], ◌∷◌, ◌++◌, nat_keys, string_keys}

pub record Opts (P W C : Type 0) : Type 0 where
  pub producer : P
  pub kind : String
  pub id : String
  pub max_restarts : ℕ
  pub restart_delay : ℕ
  pub inbox_size : ℕ
  pub middleware : List W
  pub context : C

abbrev pub default_inbox_size : ℕ
default_inbox_size = 1024

abbrev pub default_max_restarts : ℕ
default_max_restarts = 3

abbrev pub default_restart_delay : ℕ
default_restart_delay = 500000000

-- `background` is `context.Background()`.
unfoldable pub default_opts : {P W C : Type 0} → C → P → Opts P W C
default_opts background p = record {
  producer = p;
  kind = "";
  id = "";
  max_restarts = default_max_restarts;
  restart_delay = default_restart_delay;
  inbox_size = default_inbox_size;
  middleware = [];
  context = background;
}

unfoldable pub with_context : {P W C : Type 0} → C → Opts P W C → Opts P W C
with_context ctx opts = record opts { context = ctx }

unfoldable pub with_middleware : {P W C : Type 0} → List W → Opts P W C → Opts P W C
with_middleware mw opts = record opts { middleware = opts.middleware ++ mw }

unfoldable pub with_restart_delay : {P W C : Type 0} → ℕ → Opts P W C → Opts P W C
with_restart_delay d opts = record opts { restart_delay = d }

unfoldable pub with_inbox_size : {P W C : Type 0} → ℕ → Opts P W C → Opts P W C
with_inbox_size size opts = record opts { inbox_size = size }

-- `int32(n)`, of a number that is not negative, as its 32 bits.
unfoldable pub with_max_restarts : {P W C : Type 0} → ℕ → Opts P W C → Opts P W C
with_max_restarts n opts = record opts { max_restarts = n % 2 ^ 32 }

unfoldable pub with_id : {P W C : Type 0} → String → Opts P W C → Opts P W C
with_id id opts = record opts { id = id }

-- The loop of `Spawn` over the options.
unfoldable pub apply_opts :
    {P W C : Type 0} → List (Opts P W C → Opts P W C) → Opts P W C → Opts P W C
apply_opts [] opts = opts
apply_opts (f ∷ fs) opts = apply_opts fs (f opts)

-- ===== src/Actor/PidSet.antt =====
-- actor/pid_map.go: a set of PIDs as a slice, with a map from each PID to its index. The nil map
-- of a fresh `PIDSet` is the empty map here: it is read like one, and `ensureInit` replaces it
-- before a write. `pidKey` has the two fields of a PID, and `key` copies them.
pub mod Valid
pub mod Members
mod Tests
use distributed_framework.Common.Dict.{Dict, lookup, has, insert, delete}
use distributed_framework.Actor.Pid.{Pid, pid_keys}
use distributed_framework.Common.{
  ℕ, ◌-◌, Bool, true, false, Option, none, some, List, [], ◌∷◌, ◌++◌, foldl, ltb, nat_eq,
  if◌then◌else◌, length, get_elem?, get_or, set, take, nat_keys, string_keys,
}

pub record PidSet : Type 0 where
  pub pids : List Pid
  pub lookup : Dict Pid ℕ

pub empty_set : PidSet
empty_set = record { pids = []; lookup = [] }

-- `none` is the index -1.
pub index_of : PidSet → Pid → Option ℕ
index_of p v = lookup v p.lookup

pub contains : PidSet → Pid → Bool
contains p v = has v p.lookup

pub add : PidSet → Pid → PidSet
unfolding contains
add p v = if contains p v then p else record {
  pids = p.pids ++ v ∷ [];
  lookup = insert v (length (p.pids ++ v ∷ []) - 1) p.lookup;
}

pub new_pid_set : List Pid → PidSet
unfolding empty_set
new_pid_set = foldl add empty_set

-- The part of `Remove` behind the lookup: the last element takes the place of the removed one.
pub remove_at : PidSet → Pid → ℕ → PidSet
remove_at p v i =
    if ltb i (length p.pids - 1)
    then record {
      pids = take (length p.pids - 1) (set p.pids i last);
      lookup = insert last i (delete v p.lookup);
    }
    else record { pids = take (length p.pids - 1) p.pids; lookup = delete v p.lookup }
  where
    last : Pid
    last = get_or p.pids (length p.pids - 1) v

pub remove : PidSet → Pid → PidSet × Bool
unfolding index_of remove_at
remove p v = elim (index_of p v) [ none ↦ (p, false) | some i ↦ (remove_at p v i, true) ]

pub len : PidSet → ℕ
len p = length p.pids

pub clear : PidSet → PidSet
clear p = record { pids = []; lookup = [] }

pub is_empty : PidSet → Bool
unfolding len
is_empty p = nat_eq (len p) 0

pub values : PidSet → List Pid
values p = p.pids

-- `none` is an index out of range.
pub get : PidSet → ℕ → Option Pid
get p index = get_elem? p.pids index

pub clone : PidSet → PidSet
unfolding new_pid_set
clone p = new_pid_set p.pids

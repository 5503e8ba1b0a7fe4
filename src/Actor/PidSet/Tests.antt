-- ===== src/Actor/PidSet/Tests.antt =====
-- actor/pid_map.go: a set that two PIDs are added to and one is removed from.
use distributed_framework.Actor.Pid.{Pid}
use distributed_framework.Actor.PidSet.{empty_set, contains, remove}
use distributed_framework.Actor.PidSet.Valid.{IsValid}
use distributed_framework.Actor.PidSet.Members.{
  Change, adds, removes, changes, member_after, changes_lem,
}
use distributed_framework.Common.{◌≡◌, false, List, [], ◌∷◌, nat_keys, string_keys}

abbrev first : Pid
first = record { address = "local"; id = "a/1" }

abbrev second : Pid
second = record { address = "local"; id = "b/2" }

abbrev calls : List Change
calls = adds first ∷ adds second ∷ adds first ∷ removes first ∷ []

changes_lem_example :
    let p = changes empty_set calls in
    IsValid p
    × (contains p second ≡ member_after (λ v. false) calls second)
    × ((remove p second).1 ≡ contains p second)
changes_lem_example = changes_lem calls second

-- ===== src/Cluster/Agent/Activated.antt =====
-- cluster/agent.go: the PIDs that the agent knows as activated.
use distributed_framework.Common.Dict.{
  Dict, lookup, has, insert, delete, values, Unique, insert-Unique, delete-Unique, lookup-delete,
}
use distributed_framework.Cluster.Member.{Member}
use distributed_framework.Cluster.MemberSet.{remove}
use distributed_framework.Cluster.Agent.{
  Agent, remove_activated, add_activated, member_leave, rebuild_kinds, remove_host,
}
use distributed_framework.Actor.Pid.{Pid}
use distributed_framework.Common.{
  String, ◌≡◌, refl, ◌∙◌, inl, inr, Bool, true, false, Option, none, some, List, [], ◌∷◌, arith,
  if◌then◌else◌, Bool-cases, ◌==◌, ==_iff, nat_keys, string_keys, ◌>>=◌,
}

-- Each PID stands under its own ID.
abbrev pub PidKeyed : Dict String Pid → Type 0
PidKeyed [] = Unit
PidKeyed ((k, p) ∷ d) = (k ≡ p.id) × PidKeyed d

abbrev pub PidsValid : Dict String Pid → Type 0
PidsValid d = Unique d × PidKeyed d

insert-PidKeyed : (p : Pid) (d : Dict String Pid) → PidKeyed d → PidKeyed (insert p.id p d)
unfolding insert
insert-PidKeyed p [] h = (refl, tt)
insert-PidKeyed p ((k, w) ∷ d) h = ground (arith, insert-PidKeyed p d h.1)

delete-PidKeyed : (id : String) (d : Dict String Pid) → PidKeyed d → PidKeyed (delete id d)
unfolding delete
delete-PidKeyed id [] h = tt
delete-PidKeyed id ((k, w) ∷ d) h = ground (arith, delete-PidKeyed id d h.1)

pub add_activated-PidsValid :
    (a : Agent) (p : Pid) → PidsValid a.activated → PidsValid (add_activated a p).activated
unfolding add_activated
add_activated-PidsValid a p (u, k) =
    ground (arith, insert-Unique p.id p a.activated u, insert-PidKeyed p a.activated k)

pub remove_activated-PidsValid :
    (a : Agent) (p : Pid) → PidsValid a.activated → PidsValid (remove_activated a p).activated
unfolding remove_activated
remove_activated-PidsValid a p (u, k) =
    (delete-Unique p.id a.activated u, delete-PidKeyed p.id a.activated k)

pub remove_host-PidsValid :
    (a : Agent) (host : String) (ps : List Pid)
    → PidsValid a.activated
    → PidsValid (remove_host a host ps).activated
unfolding remove_host
remove_host-PidsValid a host [] v = v
remove_host-PidsValid a host (p ∷ ps) v =
    remove_host-PidsValid (if p.address == host then remove_activated a p else a) host ps
      (elim (Bool-cases (p.address == host)) [
        | inl e ↦ rw (e) (remove_activated-PidsValid a p v)
        | inr e ↦ rw (e) v
      ])

-- Whether a list has a PID of the host under that ID.
unfoldable pub on_host : String → String → List Pid → Bool
on_host host id [] = false
on_host host id (p ∷ ps) =
    if p.address == host
    then (if p.id == id then true else on_host host id ps)
    else on_host host id ps

remove_host-lookup :
    (a : Agent) (host id : String) (ps : List Pid)
    → lookup id (remove_host a host ps).activated
      ≡ (if on_host host id ps then none else lookup id a.activated)
unfolding remove_host on_host remove_activated
remove_host-lookup a host id [] = refl
remove_host-lookup a host id (p ∷ ps) =
    remove_host-lookup (if p.address == host then remove_activated a p else a) host id ps
    ∙ ground (arith, lookup-delete p.id id a.activated)

-- A PID that is on another host than the given one.
unfoldable pub unless_on : String → Pid → Option Pid
unless_on host p = if p.address == host then none else some p

on_host_absent :
    (host id : String) (d : Dict String Pid)
    → PidKeyed d
    → has id d ≡ false
    → on_host host id (values d) ≡ false
unfolding on_host has
on_host_absent host id [] k h = refl
on_host_absent host id ((i, p) ∷ d) k h = ground (arith, on_host_absent host id d k.1)

on_host-lookup :
    (host id : String) (d : Dict String Pid)
    → PidsValid d
    → (if on_host host id (values d) then none else lookup id d) ≡ (lookup id d >>= unless_on host)
unfolding on_host lookup has unless_on
on_host-lookup host id [] v = refl
on_host-lookup host id ((i, p) ∷ d) (u, k) =
    ground
      (arith, ==_iff p.id id, on_host-lookup host id d (u.1, k.1), on_host_absent host id d k.1)

-- When a member leaves, an agent whose activated PIDs stand once under their own IDs forgets the
-- activated PIDs on that member's host and only those, though the loop deletes from the map that
-- it walks.
pub member_leave-activated :
    (a : Agent) (m : Member) (id : String)
    → PidsValid a.activated
    → lookup id (member_leave a m).0.activated ≡ (lookup id a.activated >>= unless_on m.host)
unfolding member_leave rebuild_kinds
member_leave-activated a m id v =
    remove_host-lookup (rebuild_kinds (record a { members = remove a.members m })) m.host id
      (values a.activated)
    ∙ on_host-lookup m.host id a.activated v

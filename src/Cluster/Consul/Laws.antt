-- ===== src/Cluster/Consul/Laws.antt =====
-- cluster/consul_provider.go: how the members that Consul knows come to the agents.
use distributed_framework.Common.Dict.{lookup, insert}
use distributed_framework.Common.Decimal.{pos, itoa, atoi-itoa, itoa-has_code}
use distributed_framework.Common.HostPort.{split_host_port, split_host_port-plain, IsPlain}
use distributed_framework.Actor.Pid.{new_pid}
use distributed_framework.Cluster.Member.{Member}
use distributed_framework.Cluster.Client.{Cluster, member, kinds_to_string, start}
use distributed_framework.Cluster.MemberSet.Laws.{lists, IsValid}
use distributed_framework.Cluster.Agent.{Agent, handle_members}
use distributed_framework.Cluster.Agent.Members.{knows, handle_members-exact}
use distributed_framework.Cluster.Consul.{
  ConsulProvider, ConsulProviderConfig, Node, ServiceEntry, ConsulEffect, send_members, register,
  start_watch, start_update_ttl, update_ttl, node_of, new_consul_provider, registration,
  ServiceRegistration, member_of, is_healthy, healthy_members, on_update, watch_updates,
  text_or_empty,
}
use Prim.Native.String.{◌++◌ as str_append}
use distributed_framework.Common.{
  ℕ, String, ◌≡◌, refl, sym, ap, ◌∙◌, Bool, true, false, ◌&&◌, Option, some, List, [], ◌∷◌, ◌++◌,
  ◌<◌, ◌^◌, append-nil, append_assoc, arith, if◌then◌else◌, Comparable, ◌==◌, nat_keys, string_keys,
  inl, inr, Bool-cases,
}

itoa-IsPlain : (n : ℕ) → IsPlain (itoa (pos n))
itoa-IsPlain n = (
  itoa-has_code b':' n (omega arith),
  itoa-has_code b'[' n (omega arith),
  itoa-has_code b']' n (omega arith),
)

-- What Consul documents of an entry: the service has the address, the port, the metadata and the
-- tags that it was registered with.
pub record IsEntryOf {C : Type 0} (r : ServiceRegistration) (e : ServiceEntry C) : Type 0 where
  pub same_address : e.address ≡ r.address
  pub same_port : e.port ≡ r.port
  pub same_metadata : e.metadata ≡ r.metadata
  pub same_tags : e.tags ≡ r.tags

-- When a started node whose address is a host without colons and brackets and a decimal port below
-- 2^63 registers at Consul, the member that other nodes make of an entry with the registered
-- address, port, metadata and tags is the node's own member in ID, host and kinds, but has no
-- region.
pub registered_member_lem :
    {P I C : Type 0} (c : Cluster P) (drawn1 drawn2 listen_addr host : String) (port : ℕ)
    (config : ConsulProviderConfig) (first : I) (node : Node) (entry : ServiceEntry C)
    → c.engine_address ≡ str_append host (str_append ":" (itoa (pos port)))
    → IsPlain host
    → port < 2 ^ 63
    → node_of listen_addr (start drawn1 drawn2 c).0 ≡ some node
    → IsEntryOf (registration (new_consul_provider config node first)) entry
    → member_of entry ≡ record (member c) { region = "" }
unfolding node_of start member registration member_of new_consul_provider new_pid lookup insert
    kinds_to_string
registered_member_lem c drawn1 drawn2 listen_addr host port config first node entry a h b n r =
    ground (
      arith,
      split,
      atoi-itoa port b,
      a,
      n,
      r.same_address,
      r.same_port,
      ap (λ m. text_or_empty (lookup "name" m)) r.same_metadata,
      r.same_tags,
    )
  where
    split : split_host_port c.engine_address ≡ some (host, itoa (pos port))
    split =
        ap split_host_port a ∙ split_host_port-plain host (itoa (pos port)) h (itoa-IsPlain port)

-- The messages of the provider as its node's agent handles them, in order.
unfoldable pub deliver : Agent → List ConsulEffect → Agent
deliver a [] = a
deliver a (send_members pid ms ∷ es) = deliver (handle_members a ms).0 es
deliver a (register r ∷ es) = deliver a es
deliver a (start_watch ∷ es) = deliver a es
deliver a (start_update_ttl ∷ es) = deliver a es
deliver a (update_ttl id ∷ es) = deliver a es

deliver-append :
    (a : Agent) (es es' : List ConsulEffect) → deliver a (es ++ es') ≡ deliver (deliver a es) es'
unfolding deliver
deliver-append a [] es' = refl
deliver-append a (send_members pid ms ∷ es) es' = deliver-append (handle_members a ms).0 es es'
deliver-append a (register r ∷ es) es' = deliver-append a es es'
deliver-append a (start_watch ∷ es) es' = deliver-append a es es'
deliver-append a (start_update_ttl ∷ es) es' = deliver-append a es es'
deliver-append a (update_ttl id ∷ es) es' = deliver-append a es es'

deliver-IsValid :
    (a : Agent) (es : List ConsulEffect) → IsValid a.members → IsValid (deliver a es).members
unfolding deliver
deliver-IsValid a [] v = v
deliver-IsValid a (send_members pid ms ∷ es) v =
    deliver-IsValid (handle_members a ms).0 es (handle_members-exact a ms "" v).0
deliver-IsValid a (register r ∷ es) v = deliver-IsValid a es v
deliver-IsValid a (start_watch ∷ es) v = deliver-IsValid a es v
deliver-IsValid a (start_update_ttl ∷ es) v = deliver-IsValid a es v
deliver-IsValid a (update_ttl id ∷ es) v = deliver-IsValid a es v

module _ {C : Type 0} (aggregated_passing : List C → Bool) where
  -- The checks of a service pass when it has some and their aggregated status is that of passing.
  abbrev pub passes : List C → Bool
  passes [] = false
  passes (c ∷ cs) = aggregated_passing (c ∷ cs)

  abbrev pub some_pass : List (ServiceEntry C) → Bool
  some_pass [] = false
  some_pass (e ∷ es) = if passes e.checks then true else some_pass es

  -- Whether an entry with checks that pass has a name.
  unfoldable pub names_passing : List (ServiceEntry C) → String → Bool
  names_passing [] id = false
  names_passing (e ∷ es) id =
      if passes e.checks && text_or_empty (lookup "name" e.metadata) == id
      then true
      else names_passing es id

  is_healthy_lem : (e : ServiceEntry C) → is_healthy aggregated_passing e ≡ passes e.checks
  unfolding is_healthy
  is_healthy_lem e = by_checks e.checks refl
    where
      by_checks :
          (l : List C)
          → e.checks ≡ l
          → elim l [ [] ↦ false | _ ∷ _ ↦ aggregated_passing e.checks ] ≡ passes l
      by_checks [] h = refl
      by_checks (c ∷ cs) h = ap aggregated_passing h

  lists-healthy_members :
      (es : List (ServiceEntry C)) (id : String)
      → lists (healthy_members aggregated_passing es) id ≡ names_passing es id
  unfolding lists names_passing member_of healthy_members
  lists-healthy_members [] id = refl
  lists-healthy_members (e ∷ es) id = ground (arith, lists-healthy_members es id, is_healthy_lem e)

  some_healthy :
      (es : List (ServiceEntry C))
      → some_pass es ≡ true
      → (m : Member) × (ms : List Member) × (healthy_members aggregated_passing es ≡ m ∷ ms)
  unfolding healthy_members
  some_healthy [] h = cc
  some_healthy (e ∷ es) h = elim (Bool-cases (passes e.checks)) [
    | inl ok ↦ (member_of e, healthy_members aggregated_passing es, rw (is_healthy_lem e, ok) refl)
    | inr ko ↦
        let (m, ms, k) = some_healthy es (ground arith) in (m, ms, rw (is_healthy_lem e, ko) k)
  ]

  module _ {I : Type 0} ⦃keys : Comparable I⦄ where
    watch_updates-append :
        (p : ConsulProvider I) (us : List (I × Option (List (ServiceEntry C)))) (index : I)
        (entries : List (ServiceEntry C))
        → (watch_updates aggregated_passing p (us ++ (index, some entries) ∷ [])).1
          ≡ (watch_updates aggregated_passing p us).1
            ++ (on_update aggregated_passing
                (watch_updates aggregated_passing p us).0
                index
                (some entries)).1
    unfolding watch_updates
    watch_updates-append p [] index entries = append-nil _
    watch_updates-append p ((i, msg) ∷ us) index entries =
        ap (λ l. (on_update aggregated_passing p i msg).1 ++ l)
          (watch_updates-append (on_update aggregated_passing p i msg).0 us index entries)
        ∙ sym (append_assoc (on_update aggregated_passing p i msg).1 _ _)

    sent :
        (q : ConsulProvider I) (index : I) (entries : List (ServiceEntry C)) (m : Member)
        (ms : List Member)
        → (q.prev_index == index) ≡ false
        → healthy_members aggregated_passing entries ≡ m ∷ ms
        → (on_update aggregated_passing q index (some entries)).1
          ≡ send_members q.cluster.agent_pid (m ∷ ms) ∷ []
    unfolding on_update
    sent q index entries m ms n h = ground (arith, n, h)

    watched :
        (p : ConsulProvider I) (us : List (I × Option (List (ServiceEntry C)))) (index : I)
        (entries : List (ServiceEntry C)) (m : Member) (ms : List Member) (a : Agent)
        → ((watch_updates aggregated_passing p us).0.prev_index == index) ≡ false
        → healthy_members aggregated_passing entries ≡ m ∷ ms
        → deliver a (watch_updates aggregated_passing p (us ++ (index, some entries) ∷ [])).1
          ≡ (handle_members (deliver a (watch_updates aggregated_passing p us).1) (m ∷ ms)).0
    unfolding deliver
    watched p us index entries m ms a n h =
        ap (deliver a) (
          watch_updates-append p us index entries
          ∙ ap (λ l. (watch_updates aggregated_passing p us).1 ++ l)
              (sent (watch_updates aggregated_passing p us).0 index entries m ms n h))
        ∙ deliver-append a (watch_updates aggregated_passing p us).1 _

    -- Whatever updates a Consul provider has seen, when the last one brings a new index and at
    -- least one service that has checks whose aggregated status is passing, the agent that handles
    -- the provider's messages in order ends with a valid member set that holds exactly the names
    -- of the services of that last update that have checks whose aggregated status is passing.
    pub watch_updates-exact :
        (p : ConsulProvider I) (us : List (I × Option (List (ServiceEntry C)))) (index : I)
        (entries : List (ServiceEntry C)) (a : Agent) (id : String)
        → IsValid a.members
        → ((watch_updates aggregated_passing p us).0.prev_index == index) ≡ false
        → some_pass entries ≡ true
        → IsValid
            (deliver a
              (watch_updates aggregated_passing p (us ++ (index, some entries) ∷ [])).1).members
          × (knows
                (deliver a
                  (watch_updates aggregated_passing p (us ++ (index, some entries) ∷ [])).1)
                id
              ≡ names_passing entries id)
    watch_updates-exact p us index entries a id v n h =
        let (m, ms, k0) = some_healthy entries h in
        let before = (watch_updates aggregated_passing p us).1 in
        let (w, k) =
          handle_members-exact (deliver a before) (m ∷ ms) id (deliver-IsValid a before v) in
        rw (watched p us index entries m ms a n k0)
          (w, k ∙ ap (λ l. lists l id) (sym k0) ∙ lists-healthy_members entries id)

-- ===== src/Distlock/ConsensusExamples.antt =====
-- Servers of etcd, Consul and Zookeeper that are functions from names to what they hold: the laws that the lockers
-- rely on hold of them.
use public_pkg.Common.{
  ℕ, Bool, true, false, String, Option, none, some, ok, refl, str_eq, eq_iff, if◌then◌else◌, arith,
}
use public_pkg.Distlock.Etcd.{Etcd, EtcdLaws}
use public_pkg.Distlock.Consul.{Consul, ConsulLaws}
use public_pkg.Distlock.Zookeeper.{Zookeeper, ZookeeperLaws, Fault, node_exists}

abbrev write : (String → Option String) → String → String → String → Option String
write s k v j = if str_eq k j then some v else s j

abbrev etcd : Etcd
etcd = record {
  Server = String → Option String;
  Fault = Unit {0};
  Lease = ℕ;
  grant = λ s ttl. (ok 7, s);
  put = λ s k v id. (none, write s k v);
  delete = λ s k. (none, λ j. if str_eq k j then none else s j);
  revoke = λ s id. (none, s);
  keep_alive_once = λ s id. (none, s);
  value = λ s k. s k;
}

etcd-EtcdLaws : EtcdLaws etcd
etcd-EtcdLaws = record {
  granted = λ s ttl. (7, s, refl, λ j. refl);
  was_put = λ s k v id. (write s k v, refl, λ j. refl);
}

abbrev nothing : String → Option String
nothing j = none

-- Values, the deadlines of sessions, and whether there is a session.
record Agent : Type 0 where
  values : String → Option String
  deadlines : String → Option ℕ

abbrev consul : Consul
consul = record {
  Server = Agent;
  Fault = Unit {0};
  create = λ s ttl. (
    ok "session",
    record s { deadlines = λ j. if str_eq "session" j then some ttl else s.deadlines j },
  );
  put = λ s k v id. (none, record s { values = write s.values k v });
  delete = λ s k. (none, record s { values = λ j. if str_eq k j then none else s.values j });
  renew_session =
      λ s id. (none, record s { deadlines = λ j. if str_eq id j then some 99 else s.deadlines j });
  value = λ s k. s.values k;
  deadline = λ s id. s.deadlines id;
}

consul-ConsulLaws : ConsulLaws consul
consul-ConsulLaws = record {
  created = λ s ttl. ("session", _, refl);
  was_put = λ s k v id. (_, refl, (λ j. refl), λ j. refl);
  renewed = λ s id j differs. ground (arith, eq_iff id j);
}

abbrev make : (String → Bool) → String → Bool → Option (Fault (Unit {0})) × (String → Bool)
make s path true = (some node_exists, s)
make s path false = (none, λ j. if str_eq path j then true else s j)

abbrev zookeeper : Zookeeper
zookeeper = record {
  Server = String → Bool;
  Cause = Unit {0};
  create = λ s path. make s path (s path);
  delete = λ s path. (none, λ j. if str_eq path j then false else s j);
  there = λ s path. s path;
}

zookeeper-ZookeeperLaws : ZookeeperLaws zookeeper
zookeeper-ZookeeperLaws = record {
  created = λ s path free. (_, rw free refl, λ j. refl);
  existed = λ s path held. rw held refl;
}

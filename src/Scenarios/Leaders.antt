-- ===== src/Scenarios/Leaders.antt =====
-- Two candidates on the store in memory: the first one gets the key.
use Prim.Native.String
use Prim.Native.String.{count}
use Prim.Native.String.append as Append
use Prim.Native.String.count as Count
use q_pay_flow.Base.{ℕ, zero, suc, ◌+◌, ◌*◌, ◌≡◌, refl, ap, ◌∙◌, String, arith}
use q_pay_flow.Redis.Interface.{answered}
use q_pay_flow.Redis.Memory.{memory, memory-Laws}
use q_pay_flow.Leader.{second, new_elector, on_heartbeat, renew_lua}
use q_pay_flow.Leader.Cluster.{Cluster, Reach, begun, after, beats, put, lease_from}
use q_pay_flow.Leader.Safety.{Reach-one_leader}
use q_pay_flow.Scenarios.Payments.{empty_store}

abbrev unary : ℕ → String
unary zero = ""
unary (suc n) = String.◌∷◌ "1" (unary n)

abbrev names : ℕ → String
names i = (new_elector (unary i) "leader" (10 * second)).instance_id

count-unary : (n : ℕ) → count (unary n) ≡ n
count-unary zero = refl
count-unary (suc n) = Count.cons "1" (unary n) ∙ ap suc (count-unary n)

count-append : (s t : String) → count (String.◌++◌ s t) ≡ count s + count t
count-append String.[] t = rw (Append.nil t, Count.nil) (omega arith)
count-append (String.◌∷◌ c s) t =
    rw (Append.cons c s t, Count.cons c (String.◌++◌ s t), Count.cons c s)
      (omega (arith, count-append s t))

names-distinct : (i j : ℕ) → names i ≡ names j → i ≡ j
names-distinct i j e = omega (
  arith,
  count-append "node_" (unary i),
  count-append "node_" (unary j),
  ap count e,
  count-unary i,
  count-unary j,
)

abbrev at_first : Cluster memory
at_first = record {
  nodes = λ i. new_elector (unary i) "leader" (10 * second);
  lease = λ i. 0;
  store = empty_store;
  clock = 0;
}

abbrev won : Cluster memory
won =
    put memory at_first 0 (lease_from (at_first.nodes 0) 1) 1
      (on_heartbeat memory answered 1 (at_first.nodes 0) at_first.store)

abbrev contested : Cluster memory
contested =
    put memory won 1 (lease_from (won.nodes 1) 2) 2
      (on_heartbeat memory answered 2 (won.nodes 1) won.store)

reached : Reach memory "leader" names contested
reached =
    after
      (after
        (begun {c = at_first}
          (record { keys = λ i. refl; names = λ i. refl; followers = λ i. refl; idle = λ i. refl }))
        (beats 0 1 answered (omega arith)))
      (beats 1 2 answered (omega arith))

Reach-one_leader_example : ◌≡◌ {A = ℕ} 0 0
unfolding on_heartbeat renew_lua
Reach-one_leader_example =
    Reach-one_leader memory memory-Laws names-distinct contested reached 0 0 refl (omega arith) refl
      (omega arith)

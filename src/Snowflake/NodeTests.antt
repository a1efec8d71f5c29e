-- ===== src/Snowflake/NodeTests.antt =====
-- The numbers of nodes, run.
use pivotal.Base.{◌≡◌, refl, Bool, true, false, Option, none, some, [], ◌∷◌, ok, err, arith}
use pivotal.Text.{Text, codes, trim, trim_start, value, value_from, to_string}
use pivotal.Snowflake.NodeId.{
  create_crc32_table, create_node_id_from_mac, parse_mac_address, parse_int, resolve_node_id, Host,
  node_id_must_be_set,
}
use pivotal.Snowflake.Pods.{resolve_node_id-pod}

abbrev a_host : Option Text → Bool → Host
a_host configured in_k8s = record {
  snowflake_node_id = configured;
  in_k8s = in_k8s;
  interfaces = (codes "00:00:00:00:00:00" ∷ []) ∷ (codes "02:42:7A:c1:00:0f" ∷ []) ∷ [];
}

mac_test : create_node_id_from_mac (some create_crc32_table) (a_host none false).interfaces 5 ≡ 671
unfolding create_node_id_from_mac create_crc32_table parse_mac_address trim
mac_test = refl

-- Without the table the addresses are not read.
no_table_test : resolve_node_id (λ n. n) none (a_host none false) 5 ≡ ok 5
unfolding resolve_node_id create_node_id_from_mac parse_mac_address trim
no_table_test = refl

must_be_set_test :
    resolve_node_id (λ n. n) none (a_host (some (codes "web-")) true) 5 ≡ err node_id_must_be_set
unfolding resolve_node_id parse_int trim trim_start
must_be_set_test = refl

signed_test : resolve_node_id (λ n. n) none (a_host (some (codes " -3 ")) true) 5 ≡ ok 1021
unfolding resolve_node_id parse_int trim trim_start value value_from
signed_test = refl

resolve_node_id-pod_example :
    resolve_node_id (λ n. n) none (a_host (some (codes "web-17")) true) 5 ≡ ok 17
unfolding to_string
resolve_node_id-pod_example =
    resolve_node_id-pod (λ n. n) (λ n h. refl) none (a_host (some (codes "web-17")) true) 5 b'w'
      (b'e' ∷ b'b' ∷ []) 17 (omega arith) (omega arith) (refl, (refl, tt)) (omega arith) refl

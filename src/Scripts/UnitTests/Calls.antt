-- ===== src/Scripts/UnitTests/Calls.antt =====
-- The test calls that scripts/lint-unit-test-architecture.ts counts in a file.
use es_ts_example.Common.{
  ◌≡◌, refl, ap, String, Bool-cases, inl, inr, List, [], ◌∷◌, ◌++◌, filter, filter-append, length,
  length-append, arith,
}
use es_ts_example.Scripts.UnitTests.{
  Node, node, Nodes, no_nodes, nodes, is_test_call, test_call_count, test_calls_in,
}

-- The names that the nodes of a tree call, from the root downwards.
mutual
  pub callees : Node → List String
  callees (node callee_name children) = callee_name ∷ callees_in children

  pub callees_in : Nodes → List String
  callees_in no_nodes = []
  callees_in (nodes n rest) = callees n ++ callees_in rest

mutual
  unfolding test_call_count callees

  test_call_count-callees :
      (n : Node) → test_call_count n ≡ length (filter is_test_call (callees n))
  test_call_count-callees (node callee_name children) =
      elim (Bool-cases (is_test_call callee_name)) [
        | inl e ↦ rw e (omega (arith, test_calls_in-callees children))
        | inr e ↦ rw e (omega (arith, test_calls_in-callees children))
      ]

  test_calls_in-callees :
      (list : Nodes) → test_calls_in list ≡ length (filter is_test_call (callees_in list))
  test_calls_in-callees no_nodes = refl
  test_calls_in-callees (nodes n rest) = omega (
    arith,
    test_call_count-callees n,
    test_calls_in-callees rest,
    ap length (filter-append is_test_call (callees n) (callees_in rest)),
    length-append (filter is_test_call (callees n)) (filter is_test_call (callees_in rest)),
  )

-- The number of test calls of a file is that of the calls of `test` and `testEffect` in its whole tree, at
-- any depth, those inside other test calls included.
pub test_call_count_lem :
    (tree : Node) → test_call_count tree ≡ length (filter is_test_call (callees tree))
test_call_count_lem tree = test_call_count-callees tree

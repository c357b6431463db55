-- ===== src/Tests/Nodes.antt =====
-- Reports on known nodes, and paths.
use opus8_cf.Base.{text_eq, first_where, ◌≡◌, refl, [], ◌∷◌, some, codes}
use opus8_cf.Nodes.{Node, get_node, upsert_node}
use opus8_cf.Nodes.Laws.{upsert_node-enabled}
use opus8_cf.Tests.Sample.{node_1, report}

upsert_node-enabled_example :
    (r' : Node) × (get_node (upsert_node (node_1 ∷ []) report) (codes "n1") ≡ some r')
    × (r'.enabled ≡ 0)
    × (r'.created_at ≡ 10)
unfolding get_node first_where text_eq
upsert_node-enabled_example = upsert_node-enabled (node_1 ∷ []) report node_1 refl

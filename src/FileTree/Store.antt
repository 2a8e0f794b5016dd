-- ===== src/FileTree/Store.antt =====
-- src/file_tree.h: the objects Node and EqClass in a store, their pointers as addresses.
use dupa.Base.{
  ℕ, Bool, true, false, String, Option, List, [], ◌∷◌, ◌==◌, if◌then◌else◌, is_some, suc, none,
  some, not, str_eq, ◌>>◌, assert,
}

pub data NodeType : Type 0 where
  dir file : NodeType

abbrev pub is_dir : NodeType → Bool
is_dir dir = true
is_dir file = false

-- `D` is the type double. `size` is meaningful for files alone.
pub record Node (D : Type 0) : Type 0 where
  pub name : String
  pub type : NodeType
  pub size : ℕ
  pub parent : Option ℕ
  pub children : List ℕ
  pub eq_class : Option ℕ
  pub not_evaluated_children : ℕ
  pub unique_fraction : D

pub record EqClass (D : Type 0) : Type 0 where
  pub nodes : List ℕ
  pub weight : D

-- The nodes have the addresses below `num_nodes`, the classes those below `num_classes`.
pub record Heap (D : Type 0) : Type 0 where
  pub node : ℕ → Node D
  pub class_at : ℕ → EqClass D
  pub num_nodes : ℕ
  pub num_classes : ℕ

abbrev pub update {ℓ} : {A : Type ℓ} → (ℕ → A) → ℕ → A → ℕ → A
update f i a j = if i == j then a else f j

module _ {D : Type 0} where
  abbrev pub set_node : ℕ → Node D → Heap D → Heap D
  set_node i x h = record h { node = update h.node i x }

  abbrev pub set_class : ℕ → EqClass D → Heap D → Heap D
  set_class c x h = record h { class_at = update h.class_at c x }

  abbrev pub is_ready_to_evaluate : Node D → Bool
  is_ready_to_evaluate x = x.not_evaluated_children == 0

  abbrev pub is_evaluated : Node D → Bool
  is_evaluated x = is_some x.eq_class

  abbrev pub is_empty_dir : Node D → Bool
  is_empty_dir x = elim x.children [ [] ↦ is_dir x.type | c ∷ cs ↦ false ]

  abbrev pub is_single : EqClass D → Bool
  is_single c = elim c.nodes [ [] ↦ false | n ∷ ns ↦ elim ns [ [] ↦ true | m ∷ ms ↦ false ] ]

  -- The constructor of Node; unique_fraction_ keeps what the memory has.
  unfoldable pub new_node : NodeType → String → ℕ → Heap D → Option (ℕ × Heap D)
  new_node type name size h = do
    assert (not (str_eq name ""))
    some (
      h.num_nodes,
      record (set_node h.num_nodes
          (record {
            name = name;
            type = type;
            size = size;
            parent = none;
            children = [];
            eq_class = none;
            not_evaluated_children = 0;
            unique_fraction = (h.node h.num_nodes).unique_fraction;
          })
          h) { num_nodes = suc h.num_nodes },
    )

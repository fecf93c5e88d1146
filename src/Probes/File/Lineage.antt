-- ===== src/Probes/File/Lineage.antt =====
-- What `dentry_to_path` of ingraind-probes/src/file/main.rs finds, told of the dentries from a file up
-- to the root at once: the policy of the nearest of the first eight that has one, and their names.
use ingraind.Prelude.{
  ℕ, zero, suc, ◌+◌, ◌≡◌, refl, ap, sym, nat_beq_iff, ◌∙◌, false, Option, none, some, List, [], ◌∷◌,
  if◌then◌else◌, ◌==◌, nat_equality, take, Result, ok, ◌>>=◌,
}
use ingraind.Probes.Bpf.{BpfMap, field}
use ingraind.Probes.File.{
  Memory, InodePolicy, PathList, policy_for_inode, next_policy, walk, dentry_to_path, write_segment,
  path_segment_len,
}

-- the number of an inode and a name
pub record Node : Type 0 where
  pub ino : ℕ
  pub name : List ℕ

-- a dentry with all that is read of it: its inode, its name and its parent
abbrev Shows : Memory → ℕ → Node → ℕ → Type 0
Shows memory dentry node parent =
    (inode : ℕ) × (name : ℕ) × ((memory.dentry dentry).d_inode ≡ some inode)
    × ((memory.inode inode).i_ino ≡ some node.ino)
    × ((memory.dentry dentry).d_name ≡ some name)
    × (memory.read_str path_segment_len name ≡ some node.name)
    × ((memory.dentry dentry).d_parent ≡ some parent)

-- the dentries from one up to the root, which is its own parent
pub data Lineage (memory : Memory) : ℕ → List Node → Type 0 where
  root :
      {dentry : ℕ} {node : Node}
      → Shows memory dentry node dentry
      → Lineage memory dentry (node ∷ [])
  below :
      {dentry parent : ℕ} {node : Node} {nodes : List Node}
      → Shows memory dentry node parent
      → (parent == dentry) ≡ false
      → Lineage memory parent nodes
      → Lineage memory dentry (node ∷ nodes)

-- names written to the segments from an index on
abbrev pub filled : ℕ → List Node → PathList → PathList
filled i [] paths = paths
filled i (node ∷ nodes) paths = filled (i + 1) nodes (write_segment i node.name paths)

abbrev pub with_list : PathList → Option InodePolicy → Result (Unit {0}) (InodePolicy × PathList)
with_list paths policy = field policy >>= λ p. ok (p, paths)

take_nil : (n : ℕ) → take {A = Node} n [] ≡ []
take_nil zero = refl
take_nil (suc n) = refl

only : (o : Option InodePolicy) → o ≡ (elim o [ some p ↦ some p | none ↦ none ])
only (some p) = refl
only none = refl

module _ {A : Type 0} ⦃actionlist : BpfMap ℕ ℕ A⦄ where
  -- the policy of the first inode that has one
  abbrev pub nearest : A → List Node → Option InodePolicy
  nearest actions [] = none
  nearest actions (node ∷ nodes) = elim (policy_for_inode node.ino actions) [
    | some p ↦ some p
    | none ↦ nearest actions nodes
  ]

  abbrev first_of : A → Option InodePolicy → List Node → Option InodePolicy
  first_of actions (some p) nodes = some p
  first_of actions none nodes = nearest actions nodes

  first_of_step :
      (actions : A) (policy : Option InodePolicy) (node : Node) (nodes : List Node)
      → first_of actions (first_of actions policy (node ∷ [])) nodes
        ≡ first_of actions policy (node ∷ nodes)
  first_of_step actions (some p) node nodes = refl
  first_of_step actions none node nodes =
      elim (policy_for_inode node.ino actions)
        as (λ (o : Option InodePolicy).
          first_of actions (elim o [ some p ↦ some p | none ↦ none ]) nodes
          ≡ (elim o [ some p ↦ some p | none ↦ nearest actions nodes ])) [
            | some p ↦ refl
            | none ↦ refl
          ]

  next_policy_lem :
      (memory : Memory) (inode : ℕ) (actions : A) (policy : Option InodePolicy) (node : Node)
      → (memory.inode inode).i_ino ≡ some node.ino
      → next_policy memory inode actions policy ≡ ok (first_of actions policy (node ∷ []))
  unfolding next_policy
  next_policy_lem memory inode actions (some p) node e = refl
  next_policy_lem memory inode actions none node e =
      rw e (ap ok (only (policy_for_inode node.ino actions)))

  walk_step :
      (rounds i dentry parent : ℕ) (memory : Memory) (actions : A) (policy : Option InodePolicy)
      (paths : PathList) (node : Node)
      → Shows memory dentry node parent
      → walk (suc rounds) i dentry memory actions policy paths ≡ (
          if parent == dentry
          then with_list (write_segment i node.name paths) (first_of actions policy (node ∷ []))
          else walk rounds
              (i + 1)
              parent
              memory
              actions
              (first_of actions policy (node ∷ []))
              (write_segment i node.name paths))
  unfolding walk
  walk_step rounds i dentry parent memory actions policy paths node
        (inode, name, e, ei, en, er, ep) =
      rw e (rw (next_policy_lem memory inode actions policy node ei) (rw en (rw er (rw ep refl))))

  walk_lem :
      (rounds i dentry : ℕ) (memory : Memory) (actions : A) (policy : Option InodePolicy)
      (paths : PathList) (nodes : List Node)
      → Lineage memory dentry nodes
      → walk rounds i dentry memory actions policy paths
        ≡ with_list
            (filled i (take rounds nodes) paths)
            (first_of actions policy (take rounds nodes))
  unfolding walk next_policy
  walk_lem zero i dentry memory actions (some p) paths nodes l = refl
  walk_lem zero i dentry memory actions none paths nodes l = refl
  walk_lem (suc rounds) i dentry memory actions policy paths nodes (root {node = node} s) =
      walk_step rounds i dentry dentry memory actions policy paths node s
      ∙ rw ((nat_beq_iff dentry dentry).1 refl) (
          ap
            (λ ns.
              with_list (filled (i + 1) ns (write_segment i node.name paths))
                (first_of actions policy (node ∷ ns)))
            (sym (take_nil rounds)))
  walk_lem (suc rounds) i dentry memory actions policy paths nodes
        (below {parent = parent} {node = node} {nodes = above} s other l) =
      walk_step rounds i dentry parent memory actions policy paths node s
      ∙ rw other (
          walk_lem rounds (i + 1) parent memory actions (first_of actions policy (node ∷ []))
            (write_segment i node.name paths) above l
          ∙ ap (with_list (filled (i + 1) (take rounds above) (write_segment i node.name paths)))
              (first_of_step actions policy node (take rounds above)))

  -- From a dentry, not null, with its ancestors up to the root: the policy is that of the nearest of the first
  -- eight that has one, so one of a file overrides that of its directories, and it comes with their
  -- names. There is no policy if none of the eight has one, whatever those above them have.
  pub dentry_to_path_lem :
      (dentry : ℕ) (memory : Memory) (actions : A) (paths : PathList) (nodes : List Node)
      → (dentry == 0) ≡ false
      → Lineage memory dentry nodes
      → dentry_to_path dentry memory actions paths
        ≡ with_list (filled 0 (take 8 nodes) paths) (nearest actions (take 8 nodes))
  unfolding dentry_to_path
  dentry_to_path_lem dentry memory actions paths nodes there l =
      rw there (walk_lem 8 0 dentry memory actions none paths nodes l)

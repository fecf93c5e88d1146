-- ===== src/Grains/Files/Watched.antt =====
-- The directories that src/grains/file.rs marks at the start, and the accesses for which
-- ingraind-probes/src/file/main.rs then finds the mark.
use ingraind.Prelude.{
  ℕ, ◌≡◌, refl, ap, sym, ◌∙◌, true, false, ◌||◌, Text, Option, none, some, List, [], ◌∷◌,
  if◌then◌else◌, ◌==◌, nat_equality, Bool, Bool-cases, inl, inr, take, ok, err, ◌>>=◌, try_map,
  try_map_cons, unwrap,
}
use ingraind.Probes.Bpf.{BpfMap, HasRoom}
use ingraind.Probes.File.{Memory, PathList, record_it, policy_for_inode, dentry_to_path}
use ingraind.Probes.File.Lineage.{Node, Lineage, filled, nearest, with_list, dentry_to_path_lem}
use ingraind.Grains.Files.{watch_all, action_record}

-- a number is in a list
abbrev pub among : ℕ → List ℕ → Bool
among i [] = false
among i (j ∷ js) = (j == i) || among i js

-- a node with one of the inodes
abbrev pub any_watched : List ℕ → List Node → Bool
any_watched inos [] = false
any_watched inos (node ∷ nodes) = among node.ino inos || any_watched inos nodes

if_or :
    {B : Type 0} (p q : Bool) (x y : B)
    → (if q then x else if p then x else y) ≡ (if p || q then x else y)
if_or true true x y = refl
if_or true false x y = refl
if_or false q x y = refl

with_list_if :
    (b : Bool) (paths : PathList)
    → with_list paths (if b then some record_it else none)
      ≡ (if b then ok (record_it, paths) else err tt)
with_list_if true paths = refl
with_list_if false paths = refl

module _ {A : Type 0} ⦃actionlist : BpfMap ℕ ℕ A⦄ where
  -- the marks of a list of inodes
  abbrev pub mark : List ℕ → A → A
  mark [] actions = actions
  mark (ino ∷ inos) actions = mark inos (actionlist.set ino action_record actions)

  watch_all-mark :
      (metadata : Text → Option ℕ) (dirs : List Text) (inos : List ℕ) (actions : A)
      → try_map (λ dir. unwrap (metadata dir)) dirs ≡ ok inos
      → watch_all metadata dirs actions ≡ ok (mark inos actions)
  unfolding watch_all try_map
  watch_all-mark metadata [] inos actions found = ap (λ r. r >>= λ js. ok (mark js actions)) found
  watch_all-mark metadata (dir ∷ dirs) inos actions found =
      let (ino, inos', e, es, same) = try_map_cons (λ dir. unwrap (metadata dir)) dir dirs found in
      rw e (
        watch_all-mark metadata dirs inos' (actionlist.set ino action_record actions) es
        ∙ ap (λ js. ok (mark js actions)) (sym same))

  get-mark :
      (room : HasRoom actionlist) (inos : List ℕ) (actions : A) (i : ℕ)
      → actionlist.get i (mark inos actions)
        ≡ (if among i inos then some action_record else actionlist.get i actions)
  get-mark room [] actions i = refl
  get-mark room (ino ∷ inos) actions i =
      get-mark room inos (actionlist.set ino action_record actions) i
      ∙ ap (λ (o : Option ℕ). if among i inos then some action_record else o)
          (room.get-set ino i action_record actions)
      ∙ if_or (ino == i) (among i inos) (some action_record) (actionlist.get i actions)

  -- a map without any mark
  abbrev pub Unmarked : A → Type 0
  Unmarked actions = (i : ℕ) → actionlist.get i actions ≡ none

  policy_for_inode-mark :
      (room : HasRoom actionlist) (inos : List ℕ) (actions : A) (i : ℕ)
      → Unmarked actions
      → policy_for_inode i (mark inos actions) ≡ (if among i inos then some record_it else none)
  unfolding policy_for_inode
  policy_for_inode-mark room inos actions i blank = elim (Bool-cases (among i inos)) [
    | inl e ↦ rw (get-mark room inos actions i, policy_for_inode) (rw e refl)
    | inr e ↦ rw (get-mark room inos actions i, policy_for_inode) (rw e (rw (blank i) refl))
  ]

  nearest-mark :
      (room : HasRoom actionlist) (inos : List ℕ) (actions : A) (nodes : List Node)
      → Unmarked actions
      → nearest (mark inos actions) nodes
        ≡ (if any_watched inos nodes then some record_it else none)
  nearest-mark room inos actions [] blank = refl
  nearest-mark room inos actions (node ∷ nodes) blank = elim (Bool-cases (among node.ino inos)) [
    | inl e ↦ rw (policy_for_inode-mark room inos actions node.ino blank, nearest) (rw e refl)
    | inr e ↦
        rw (policy_for_inode-mark room inos actions node.ino blank, nearest)
          (rw e (nearest-mark room inos actions nodes blank))
  ]

  -- With the directories of the configuration marked in a map that was empty and has room, all of them
  -- being readable: from a file with its ancestors up to the root, the probe finds that it is to be
  -- recorded exactly if one of the first eight, itself included, has the inode of a directory of the
  -- configuration, and it then writes their names; in no other case is anything recorded.
  pub dentry_to_path-watch_all :
      (room : HasRoom actionlist) (metadata : Text → Option ℕ) (dirs : List Text) (inos : List ℕ)
      (actions marked : A) (dentry : ℕ) (memory : Memory) (paths : PathList) (nodes : List Node)
      → Unmarked actions
      → try_map (λ dir. unwrap (metadata dir)) dirs ≡ ok inos
      → watch_all metadata dirs actions ≡ ok marked
      → (dentry == 0) ≡ false
      → Lineage memory dentry nodes
      → dentry_to_path dentry memory marked paths ≡ (
          if any_watched inos (take 8 nodes)
          then ok (record_it, filled 0 (take 8 nodes) paths)
          else err tt)
  dentry_to_path-watch_all room metadata dirs inos actions marked dentry memory paths nodes blank
        found done there l =
      let made : ok marked ≡ ok (mark inos actions) =
        sym done ∙ watch_all-mark metadata dirs inos actions found in
      let same : marked ≡ mark inos actions = cc in
      dentry_to_path_lem dentry memory marked paths nodes there l
      ∙ ap (λ a. with_list (filled 0 (take 8 nodes) paths) (nearest a (take 8 nodes))) same
      ∙ ap (with_list (filled 0 (take 8 nodes) paths))
          (nearest-mark room inos actions (take 8 nodes) blank)
      ∙ with_list_if (any_watched inos (take 8 nodes)) (filled 0 (take 8 nodes) paths)

-- ===== src/Probes/Bpf.antt =====
-- What the programs of ingraind-probes/src share: the hash maps in the kernel, which are redbpf's, and
-- the early return.
use ingraind.Prelude.{◌≡◌, Option, some, none, if◌then◌else◌, ◌==◌, Equality, Result, ok_or}

-- `HashMap<K, V>` of redbpf; `M` is what it holds.
pub record BpfMap (K V M : Type 0) : Type 0 where
  pub get : K → M → Option V
  pub set : K → V → M → M
  pub delete : K → M → M

-- a value, or the early return of `?` on an `Option`
abbrev pub field : {A : Type 0} → Option A → Result (Unit {0}) A
field o = ok_or o tt

-- The calls of the kernel on a key concern that key only, as long as the map has room for the keys
-- that are set.
pub record HasRoom {K V M : Type 0} ⦃e : Equality K⦄ (map : BpfMap K V M) : Type 0 where
  pub get-set :
      (k j : K) (v : V) (m : M)
      → map.get j (map.set k v m) ≡ (if k == j then some v else map.get j m)
  pub get-delete :
      (k j : K) (m : M) → map.get j (map.delete k m) ≡ (if k == j then none else map.get j m)

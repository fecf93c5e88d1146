-- ===== src/Grains/Ebpf/Sockets.antt =====
-- The two passes of `attach_socketfilters` in src/grains/ebpf.rs keep each socket with its program, as
-- a comment there hopes.
use ingraind.Prelude.{
  ◌≡◌, refl, ap, Text, List, [], ◌∷◌, panic, Run, ok, err, ◌>>=◌, unwrap, try_map, retain,
}
use ingraind.Grains.Ebpf.{
  Module, Redbpf, zip, socket_stream, is_socket_filter, attach_socketfilters,
}

module _ {A B C : Type 0} (f : A → Run B) (g : A × B → Run C) where
  later_panic :
      (step : Run C) (rest : Run (List C))
      → err panic ≡ rest
      → err panic ≡ (step >>= λ z. rest >>= λ zs. ok (z ∷ zs))
  later_panic (ok z) rest e = ap (λ r. r >>= λ zs. ok (z ∷ zs)) e
  later_panic (err panic) rest e = refl

  pair_step :
      (x : A) (xs : List A) (fx : Run B) (fs : Run (List B)) (rest : Run (List C))
      → (fs >>= λ ys. try_map g (zip xs ys)) ≡ rest
      → ((fx >>= λ y. fs >>= λ ys. ok (y ∷ ys)) >>= λ ys. try_map g (zip (x ∷ xs) ys))
        ≡ ((fx >>= λ y. g (x, y)) >>= λ z. rest >>= λ zs. ok (z ∷ zs))
  unfolding try_map zip
  pair_step x xs (err panic) fs rest e = refl
  pair_step x xs (ok y) (ok ys) rest e = ap (λ r. g (x, y) >>= λ z. r >>= λ zs. ok (z ∷ zs)) e
  pair_step x xs (ok y) (err panic) rest e = later_panic (g (x, y)) rest e

  two_passes :
      (xs : List A)
      → (try_map f xs >>= λ ys. try_map g (zip xs ys)) ≡ try_map (λ x. f x >>= λ y. g (x, y)) xs
  unfolding try_map zip
  two_passes [] = refl
  two_passes (x ∷ xs) = pair_step x xs (f x) (try_map f xs) _ (two_passes xs)

-- Attaching all the filters first and then filtering and zipping again is the same as making the
-- stream of each filter, of its own name, handler and socket, as soon as it is attached.
pub attach_socketfilters_lem :
    {C : Type 0} ⦃redbpf : Redbpf⦄ (iface : Text) (get_handler : Text → Run C) (the_module : Module)
    → attach_socketfilters iface get_handler the_module
      ≡ try_map
          (λ p.
            unwrap (redbpf.attach_socketfilter p iface) >>= λ fd. socket_stream get_handler (p, fd))
          (retain is_socket_filter the_module.programs)
unfolding attach_socketfilters
attach_socketfilters_lem ⦃redbpf⦄ iface get_handler the_module =
    two_passes (λ p. unwrap (redbpf.attach_socketfilter p iface)) (socket_stream get_handler)
      (retain is_socket_filter the_module.programs)

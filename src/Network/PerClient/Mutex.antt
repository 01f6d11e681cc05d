-- ===== src/Network/PerClient/Mutex.antt =====
-- Who holds `m_peerSocketsLock` of epoll_vs_multithreaded_io/network/tcp_server_thread_per_client.h.
use low_latency_experiments.Common.{
  ℕ, List, [], ◌∷◌, ◌++◌, Bool, true, false, Option, none, some, ◌≡◌, refl, sym, ap, ◌∙◌, inl, inr,
  set,
}
use low_latency_experiments.Network.PerClient.{
  Acceptor, Client, Thread, acceptor_thread, client_thread,
}
use low_latency_experiments.Network.PerClient.Invariant.{StandsAt, moved_cases, appended_cases}

-- The thread is between taking the mutex and releasing it.
abbrev pub holds : Client → Bool
holds Client.receiving = true
holds (Client.received read stored error) = true
holds Client.removing = true
holds Client.left = true
holds _ = false

abbrev pub acceptor_holds : Acceptor → Bool
acceptor_holds (Acceptor.adding peer) = true
acceptor_holds Acceptor.storing = true
acceptor_holds Acceptor.unlocking = true
acceptor_holds _ = false

-- Every thread that holds the mutex is its owner.
pub record LockInv (owner : Option Thread) (acceptor : Acceptor) (clients : List (ℕ × Client))
    : Type 0 where
  pub of_client :
      (k i : ℕ) (pc : Client)
      → StandsAt clients k i pc
      → holds pc ≡ true
      → owner ≡ some (client_thread k)
  pub of_acceptor : acceptor_holds acceptor ≡ true → owner ≡ some acceptor_thread

module _ {owner : Option Thread} {acceptor : Acceptor} {clients : List (ℕ × Client)}
    (inv : LockInv owner acceptor clients) where
  pub LockInv-acceptor :
      (a : Acceptor)
      → (acceptor_holds a ≡ true → acceptor_holds acceptor ≡ true)
      → LockInv owner a clients
  LockInv-acceptor a keep = record {
    of_client = inv.of_client;
    of_acceptor = λ h. inv.of_acceptor (keep h);
  }

  pub LockInv-acceptor_takes :
      (a : Acceptor) → owner ≡ none → LockInv (some acceptor_thread) a clients
  LockInv-acceptor_takes a free = record {
    of_client = λ k i pc at h. absurd (cc (free, inv.of_client k i pc at h));
    of_acceptor = λ h. refl;
  }

  pub LockInv-acceptor_releases :
      (a : Acceptor)
      → acceptor_holds acceptor ≡ true
      → acceptor_holds a ≡ false
      → LockInv none a clients
  LockInv-acceptor_releases a held free = record {
    of_client = λ k i pc at h. absurd (cc (inv.of_acceptor held, inv.of_client k i pc at h));
    of_acceptor = λ h. absurd (cc (h, free));
  }

  pub LockInv-add : (slot : ℕ) → LockInv owner acceptor (clients ++ ((slot, Client.naming) ∷ []))
  LockInv-add slot = record {
    of_client = λ k i pc at h. elim (appended_cases clients (slot, Client.naming) k i pc at) [
      | inl (e, f) ↦ absurd (cc (ap (λ (x : ℕ × Client). holds x.1) f, h))
      | inr (ne, at') ↦ inv.of_client k i pc at' h
    ];
    of_acceptor = inv.of_acceptor;
  }

  module _ (k slot : ℕ) (pc' : Client) where
    pub LockInv-takes :
        owner ≡ none → LockInv (some (client_thread k)) acceptor (set clients k (slot, pc'))
    LockInv-takes free = record {
      of_client = λ j i q at h. elim (moved_cases clients k slot pc' j i q at) [
        | inl (e, f, g) ↦ ap (λ n. some (client_thread n)) (sym e)
        | inr (ne, at') ↦ absurd (cc (free, inv.of_client j i q at' h))
      ];
      of_acceptor = λ h. absurd (cc (free, inv.of_acceptor h));
    }

    pub LockInv-releases :
        (pc : Client)
        → StandsAt clients k slot pc
        → holds pc ≡ true
        → holds pc' ≡ false
        → LockInv none acceptor (set clients k (slot, pc'))
    LockInv-releases pc here held free = record {
      of_client = λ j i q at h. elim (moved_cases clients k slot pc' j i q at) [
        | inl (e, f, g) ↦ absurd (cc (ap holds g, h, free))
        | inr (ne, at') ↦
            let mine = inv.of_client k slot pc here held in
            let theirs = inv.of_client j i q at' h in absurd (ne (cc (mine, theirs)))
      ];
      of_acceptor = λ h. absurd (cc (inv.of_client k slot pc here held, inv.of_acceptor h));
    }

    pub LockInv-move :
        (pc : Client)
        → StandsAt clients k slot pc
        → (holds pc' ≡ true → holds pc ≡ true)
        → LockInv owner acceptor (set clients k (slot, pc'))
    LockInv-move pc here keep = record {
      of_client = λ j i q at h. elim (moved_cases clients k slot pc' j i q at) [
        | inl (e, f, g) ↦
            inv.of_client k slot pc here (keep (ap holds (sym g) ∙ h))
            ∙ ap (λ n. some (client_thread n)) (sym e)
        | inr (ne, at') ↦ inv.of_client j i q at' h
      ];
      of_acceptor = inv.of_acceptor;
    }

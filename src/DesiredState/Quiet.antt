-- ===== src/DesiredState/Quiet.antt =====
-- Building a desired state whose content has not changed writes nothing.
use dn42_utils.Base.{
  ℕ, String, ◌≡◌, refl, arith, true, Option, none, some, List, select_one, ◌∙◌, ap, eq_refl,
}
use dn42_utils.Base.Text.{option_eq}
use dn42_utils.Database.Schema.{BgpEntry, IbgpEntry, NodeBlock, Content, Tables, Pin}
use dn42_utils.Database.Connection.{
  Connection, Outcome, ok, raised, continue, closing, rollback, or_raise, execute, pure, raise,
  ◌>>=◌,
}
use dn42_utils.Database.Connection.Reads.{Reading-pure, Reading-continue, Reading-bind}
use dn42_utils.Database.Connection.Atomic.{IsClosed, Reading, Reading-query}
use dn42_utils.Managed.Revisions.{
  latest_revision, get_by_revision, newest_of, first_revision, get_pin, follow_pin,
}
use dn42_utils.Managed.Nodes
use dn42_utils.Managed.Nodes.{is_node}
use dn42_utils.Database.Peers.{bgp_of, ibgp_of, list_bgp_peers, list_ibgp_peers}
use dn42_utils.DesiredState.{
  map_rows, bgp_row_to_dict, ibgp_row_to_dict, node_block, load_node_block, read_content,
  compute_revision, digest_of_revision, compute_content_digest, record_changed, choose,
  build_desired_state,
}

-- What the tables say of a node.
abbrev pub content_of : String → Tables → Content
content_of node_id t = record {
  node_id = node_id;
  bgp_peers = map_rows bgp_row_to_dict (bgp_of node_id t);
  ibgp_peers = map_rows ibgp_row_to_dict (ibgp_of node_id t);
  node = node_block (select_one (is_node node_id) t.managed_nodes);
}

read_content-Reading : (node_id : String) → Reading (read_content node_id)
unfolding read_content load_node_block list_bgp_peers list_ibgp_peers Nodes.get
read_content-Reading node_id = Reading-bind _ _ (Reading-query _ _) λ bgp_rows.
    Reading-bind _ _ (Reading-query _ _) λ ibgp_rows.
      Reading-bind _ _ (Reading-bind _ _ (Reading-query _ _) λ row. Reading-pure _)
        λ node. Reading-pure _

follow_pin-Reading : (p : Option Pin) → Reading (follow_pin p)
follow_pin-Reading none = Reading-pure _
follow_pin-Reading (some p) = Reading-query _ _

get_pin-Reading : (node_id : String) → Reading (get_pin node_id)
unfolding get_pin
get_pin-Reading node_id = Reading-bind _ _ (Reading-query _ _) follow_pin-Reading

read_content-eq-ok :
    (node_id : String) (c : Connection) (k : Content)
    → (read_content node_id c).0 ≡ ok k
    → k ≡ content_of node_id c.working
unfolding read_content load_node_block list_bgp_peers list_ibgp_peers Nodes.get or_raise execute
    ◌>>=◌ pure
read_content-eq-ok node_id c k h = ground arith

module _ (hexdigest : String → List BgpEntry → List IbgpEntry → Option NodeBlock → String)
    (rpartition : String → String × (String × String)) where
  record_changed-same :
      (node_id now previous : String) (k : Content) (keep : ℕ) (c : Connection)
      → first_revision (newest_of node_id c.working.revisions) ≡ some previous
      → option_eq
          (digest_of_revision hexdigest rpartition previous)
          (digest_of_revision hexdigest rpartition (compute_revision hexdigest rpartition k now))
        ≡ true
      → (record_changed hexdigest rpartition node_id now k keep c).1.committed ≡ c.committed
  unfolding record_changed latest_revision get_by_revision or_raise execute ◌>>=◌ pure raise
  record_changed-same node_id now previous k keep c h same = ground arith

  option_eq_refl : (o : Option String) → option_eq o o ≡ true
  option_eq_refl none = refl
  option_eq_refl (some s) = eq_refl s

  -- `rpartition` finds the last dash of a revision, since a digest has none.
  abbrev pub Splits : Type 0
  Splits =
      (k : Content) (at : String)
      → rpartition (compute_revision hexdigest rpartition k at)
        ≡ (at, ("-", compute_content_digest hexdigest rpartition k))

  same_content :
      Splits
      → (k : Content) (earlier now : String)
      → option_eq
          (digest_of_revision hexdigest rpartition
            (compute_revision hexdigest rpartition k earlier))
          (digest_of_revision hexdigest rpartition (compute_revision hexdigest rpartition k now))
        ≡ true
  unfolding digest_of_revision
  same_content splits k earlier now = rw (splits k earlier, splits k now) (search option_eq_refl)

  -- On a connection with no open transaction, when the latest snapshot of a node was taken, at any
  -- time, of what the tables say of the node now, a build of its desired state commits nothing,
  -- pinned or not, and whichever reads fail, if the last dash of a revision stands before its
  -- digest.
  pub build_desired_state_quiet :
      (now earlier node_id : String) (keep : ℕ) (c : Connection)
      → Splits
      → IsClosed c
      → first_revision (newest_of node_id c.committed.revisions)
        ≡ some (compute_revision hexdigest rpartition (content_of node_id c.committed) earlier)
      → (build_desired_state hexdigest rpartition now node_id true keep c).1.committed ≡ c.committed
  unfolding build_desired_state closing rollback ◌>>=◌
  build_desired_state_quiet now earlier node_id keep c splits closed latest =
      go (read_content node_id c).0 refl
    where
      read : Connection
      read = (rollback (read_content node_id c).1).1

      unchanged : read.committed ≡ c.committed
      unchanged = ((read_content-Reading node_id).at c).1

      go :
          (o : Outcome Content)
          → (read_content node_id c).0 ≡ o
          → (continue o
              (λ k. closing (
                record_changed hexdigest rpartition node_id now k keep >>= (λ chosen.
                  get_pin node_id >>= (λ pin. pure (choose hexdigest rpartition k chosen pin)))))
              read).1.committed
            ≡ c.committed
      go (raised e) got = unchanged
      go (ok k) got =
          let this : k ≡ content_of node_id c.committed =
            read_content-eq-ok node_id c k got ∙ ap (content_of node_id) closed in
          let recorded =
            record_changed-same node_id now _ k keep read
              (ap (λ t. first_revision (newest_of node_id t.revisions)) unchanged ∙ latest)
              (rw this (same_content splits _ earlier now)) in
          let (_, kept) =
            Reading-continue (record_changed hexdigest rpartition node_id now k keep read).0
              (λ chosen.
                get_pin node_id >>= (λ pin. pure (choose hexdigest rpartition k chosen pin)))
              (record_changed hexdigest rpartition node_id now k keep read).1
              (λ chosen. Reading-bind _ _ (get_pin-Reading node_id) (λ pin. Reading-pure _)) in
          kept ∙ recorded ∙ unchanged

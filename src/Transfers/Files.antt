-- ===== src/Transfers/Files.antt =====
-- What stands at a path after a change of the files.
use mira_bridge.Base.{
  String, none, some, List, ◌==◌, ◌≡◌, ap, ◌∙◌, if◌then◌else◌, arith, eq_iff, ◌≢◌,
}
use mira_bridge.Base.Table
use mira_bridge.Transfers.{Node, Entry, entry_path, node_of, node_at, put, remove}

pub node_at-put :
    (p q : String) (n : Node) (files : List Entry)
    → node_at q (put p n files) ≡ (if p == q then some n else node_at q files)
unfolding node_at put
node_at-put p q n files =
    ap node_of (Table.find-replace entry_path (record { path = p; node = n }) q files)
    ∙ ground arith

pub node_at-remove :
    (p q : String) (files : List Entry)
    → node_at q (remove p files) ≡ (if p == q then none else node_at q files)
unfolding node_at remove
node_at-remove p q files = ap node_of (Table.find-delete entry_path p q files) ∙ ground arith

pub node_at-put_same :
    (p : String) (n : Node) (files : List Entry) → node_at p (put p n files) ≡ some n
node_at-put_same p n files = node_at-put p p n files ∙ ground (arith, eq_iff p p)

pub node_at-put_other :
    (p q : String) (n : Node) (files : List Entry)
    → p ≢ q
    → node_at q (put p n files) ≡ node_at q files
node_at-put_other p q n files apart = node_at-put p q n files ∙ ground (arith, eq_iff p q, apart)

pub node_at-remove_same : (p : String) (files : List Entry) → node_at p (remove p files) ≡ none
node_at-remove_same p files = node_at-remove p p files ∙ ground (arith, eq_iff p p)

pub node_at-remove_other :
    (p q : String) (files : List Entry) → p ≢ q → node_at q (remove p files) ≡ node_at q files
node_at-remove_other p q files apart = node_at-remove p q files ∙ ground (arith, eq_iff p q, apart)

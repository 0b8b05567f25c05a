-- ===== src/Core/Bootstrap/Twice.antt =====
-- A start, and a second one behind it.
use insatomcat_webui.Base.{
  ℕ, ◌≤◌, String, ◌≡◌, refl, ap, inl, inr, true, Option, some, List, [], ◌∷◌, Bool-cases, Value,
  length, values, ok, Text,
}
use insatomcat_webui.Hosts.Network.{NetworkReading}
use insatomcat_webui.Trust.AuthorizedKeys.{KeyFile, read}
use insatomcat_webui.Trust.AuthorizedKeys.Lines.{IsKey}
use insatomcat_webui.Trust.AuthorizedKeys.Preserved.{foreign}
use insatomcat_webui.Trust.Service.{KeyPair, self_line, self_relation, relations}
use insatomcat_webui.Trust.Service.SelfTrust.{ensure_self_trust-IsTrusted}
use insatomcat_webui.Trust.KnownHosts.Twice.{ensure_local-ensure_local}
use insatomcat_webui.Inventory.Service.Saves.{SameFiles}
use insatomcat_webui.Inventory.Service.Seeding.{ensure_seed-ensure_seed}
use insatomcat_webui.Runs.Store.Listing.{AreKeyed}
use insatomcat_webui.Runs.Store.Recovery.Twice.{reconcile-reconcile}
use insatomcat_webui.Core.Bootstrap.{
  Node, Machine, node_addresses, kept_keys, provisioned, recorded_keys, reconcile_raises,
  with_addresses, run_startup_tasks,
}

-- the files of two states
abbrev pub SameNode : Node → Node → Type 0
SameNode a b =
    (a.keys ≡ b.keys)
    × (a.known_hosts ≡ b.known_hosts)
    × SameFiles a.repository b.repository
    × (a.runs ≡ b.runs)

recorded_keys-recorded_keys :
    (m : Machine) (addresses : List String) (file : Option String)
    → recorded_keys m addresses (recorded_keys m addresses file) ≡ recorded_keys m addresses file
unfolding recorded_keys
recorded_keys-recorded_keys m addresses file = elim (Bool-cases m.writable) [
  | inl e ↦ rw e (ensure_local-ensure_local m.host_keys _ file)
  | inr e ↦ rw e refl
]

module _ (m : Machine) (pair : KeyPair) (addresses : List String) (file : KeyFile)
    (lines : List Text) where
  -- The trust behind a start: shown as installed, the lines of others kept, and left by a second start.
  pub record IsProvisioned (after : KeyFile) : Type 0 where
    pub new_lines : List Text
    pub reads : read after ≡ ok new_lines
    pub others_kept : foreign new_lines ≡ foreign lines
    pub shown_now :
        relations (some pair) m.hostname after ≡ ok (self_relation pair m.hostname [] true ∷ [])

  provisioned_lem :
      m.key_pair ≡ some pair
      → m.keys_writable ≡ true
      → IsKey (self_line pair m.hostname addresses)
      → read file ≡ ok lines
      → IsProvisioned (provisioned m addresses file)
        × (provisioned m addresses (provisioned m addresses file) ≡ provisioned m addresses file)
  unfolding provisioned
  provisioned_lem had w h e =
      let (after, changed, done, t) =
        ensure_self_trust-IsTrusted pair m.hostname addresses file lines h e in
      rw (had, w, done)
        (
          record {
            new_lines = t.new_lines;
            reads = t.reads;
            others_kept = t.others_kept;
            shown_now = t.shown_now;
          },
          ap (kept_keys after) t.again,
        )

-- A start on a machine with a key pair, whose network and account can be read, whose authorized_keys and
-- records of runs can be written, in a store of at most 1000 records: whatever git answers and the machine
-- proposes, and whether known_hosts can be written or not, the service starts; its trust is then shown as
-- installed and the lines of others are kept; and a second start, at any later time, leaves every file
-- as the first one did.
pub run_startup_tasks-twice :
    (dump : Value → String) (m : Machine) (n : NetworkReading) (pair : KeyPair) (lines : List Text)
    (node : Node) (later : ℕ)
    → m.network ≡ some n
    → m.key_pair ≡ some pair
    → m.keys_writable ≡ true
    → m.runs_writable ≡ true
    → IsKey (self_line pair m.hostname (node_addresses n))
    → read node.keys ≡ ok lines
    → AreKeyed node.runs.records
    → length (values node.runs.records) ≤ 1000
    → (first : Node) × (second : Node) × (run_startup_tasks dump m node ≡ some first)
      × (run_startup_tasks dump (record m { now = later }) first ≡ some second)
      × IsProvisioned m pair (node_addresses n) node.keys lines first.keys
      × SameNode second first
unfolding run_startup_tasks reconcile_raises with_addresses provisioned recorded_keys
run_startup_tasks-twice dump m n pair lines node later had_network had_pair keys_written
      runs_written key readable keyed few =
    let addresses = node_addresses n in
    let first = with_addresses dump m addresses node in
    let second = with_addresses dump (record m { now = later }) addresses first in
    let (trusted, again) =
      provisioned_lem m pair addresses node.keys lines had_pair keys_written key readable in
    (
      first,
      second,
      rw (had_network, runs_written) refl,
      rw (had_network, runs_written) refl,
      trusted,
      (
        again,
        recorded_keys-recorded_keys m addresses node.known_hosts,
        ensure_seed-ensure_seed dump m.git m.proposes node.repository,
        reconcile-reconcile m.now later node.runs keyed few,
      ),
    )

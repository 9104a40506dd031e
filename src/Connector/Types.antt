-- ===== src/Connector/Types.antt =====
-- The data of src/connector/mod.rs: the state of the command loop, the commands, and what the loop
-- does to its surroundings. A set is its membership test; a session, a response channel, a token and a key are numbers.
use rtp_mux.Prelude.{ℕ, Bool, Option, List, Map}
use rtp_mux.Shared.{SocketAddr, LaneClass, ErrorKind}
use rtp_mux.CrossSession.{Store}
use rtp_mux.Explorer.{ExplorerConfig, ExplorerReport, PathExplorer}
use rtp_mux.Explorer.Score.{MigrationVerdict}

pub data RedialTrigger : Type 0 where
  forced better_path : RedialTrigger

pub data ConnectorCommand : Type 0 where
  connect : SocketAddr → LaneClass → Option ℕ → ℕ → ConnectorCommand
  redial : SocketAddr → RedialTrigger → ConnectorCommand
  explorer_report : SocketAddr → ℕ → ConnectorCommand
  reset : ConnectorCommand

pub record StreamRequest : Type 0 where
  pub lane : LaneClass
  pub response : ℕ

-- A router has the sessions whose accepters it was given; the sessions of a group are weak.
pub record AddrGroup : Type 0 where
  pub token : ℕ
  pub router : Option (List ℕ)
  pub sessions : List ℕ

pub record RedialInFlight (F : Type 0) : Type 0 where
  pub old : ℕ
  pub trigger : RedialTrigger
  pub verdict : Option (MigrationVerdict F)

pub record ExplorerContext : Type 0 where
  pub config : ExplorerConfig
  pub obfuscation_key : Option ℕ

-- A dial and what it was started with.
pub record DualLaneDial (C : Type 0) : Type 0 where
  pub addr : SocketAddr
  pub token : ℕ
  pub socket : Option C
  pub obfuscation_key : Option ℕ

-- What a dial that succeeds gives: a new session, its local address and probe channel.
pub record ConnectedDualLaneBirth (A : Type 0) : Type 0 where
  pub session : ℕ
  pub local_addr : SocketAddr
  pub probe_tap : Option A

pub record Connector (F C A : Type 0) : Type 0 where
  pub store : Store
  pub sessions : Map SocketAddr ℕ
  pub draining : Map SocketAddr ℕ
  pub pending_dials : List (DualLaneDial C)
  pub in_flight_dials : SocketAddr → Bool
  pub dial_waiters : Map SocketAddr (List StreamRequest)
  pub groups : Map SocketAddr AddrGroup
  pub redials : Map SocketAddr (RedialInFlight F)
  pub explorers : Map SocketAddr (PathExplorer F C A)
  pub addr_keys : Map SocketAddr (Option ℕ)

-- What the loop finds while it handles an event: the sessions whose opener is alive and those that
-- someone holds, the streams whose writer takes a rebind, the responses that nobody waits for, the
-- time, and the random token and probe delay.
pub record World : Type 0 where
  pub alive : ℕ → Bool
  pub held : ℕ → Bool
  pub writing : ℕ → Bool
  pub closed : ℕ → Bool
  pub now : ℕ
  pub fresh_token : ℕ
  pub stagger : ℕ

-- A message on a response channel, or a session that is killed.
pub data Effect (F : Type 0) : Type 0 where
  opened : ℕ → LaneClass → ℕ → Effect F
  failed : ℕ → ErrorKind → Effect F
  reported : ℕ → ExplorerReport F → Effect F
  killed : ℕ → Effect F
  completed : Effect F

-- ===== src/Wire.antt =====
-- The requests and responses of core/src/p2p.rs, with the records that they carry. An `f32` is its
-- bit pattern: it is only copied.
use puppypeer.Prelude.{ℕ, String, Bool, Option, List, Text}
use puppypeer.Os.{Bytes, FileTime}
use puppypeer.Rule.{Permission}
use puppypeer.State.{AuthMethod}
use puppypeer.Files.{FileChunk, FileWriteAck}

pub data FileAccess : Type 0 where
  read read_write : FileAccess

pub data PermissionGrant : Type 0 where
  owner viewer : PermissionGrant
  files : Text → FileAccess → PermissionGrant
  system_info disk_info network_info : PermissionGrant

pub data PeerReq : Type 0 where
  list_dir : Text → PeerReq
  stat_file : Text → PeerReq
  read_file : Text → ℕ → Option ℕ → PeerReq
  write_file : Text → ℕ → Bytes → PeerReq
  list_cpus list_disks list_interfaces : PeerReq
  authenticate : AuthMethod → PeerReq
  create_user : String → String → List String → List PermissionGrant → PeerReq
  create_token : String → Option String → Option ℕ → List PermissionGrant → PeerReq
  grant_access : String → List PermissionGrant → Bool → PeerReq
  list_users : PeerReq
  list_tokens : Option String → PeerReq
  revoke_token : String → PeerReq
  revoke_user : String → PeerReq
  list_permissions : PeerReq

pub record DirEntry : Type 0 where
  pub name : Text
  pub is_dir : Bool
  pub extension : Option Text
  pub mime : Option String
  pub size : ℕ
  pub created_at : FileTime
  pub modified_at : FileTime
  pub accessed_at : FileTime

pub record CpuInfo : Type 0 where
  pub name : String
  pub usage : ℕ
  pub frequency_hz : ℕ

pub record DiskInfo : Type 0 where
  pub name : String
  pub mount_path : String
  pub filesystem : String
  pub total_space : ℕ
  pub available_space : ℕ
  pub usage_percent : ℕ
  pub total_read_bytes : ℕ
  pub total_written_bytes : ℕ
  pub read_only : Bool
  pub removable : Bool
  pub kind : String

pub record InterfaceInfo : Type 0 where
  pub name : String
  pub mac : String
  pub ips : List String
  pub total_received : ℕ
  pub total_transmitted : ℕ
  pub packets_received : ℕ
  pub packets_transmitted : ℕ
  pub errors_on_received : ℕ
  pub errors_on_transmitted : ℕ
  pub mtu : ℕ

pub record SessionInfo : Type 0 where
  pub session_id : String
  pub username : String
  pub roles : List String
  pub permissions : List PermissionGrant
  pub expires_at : Option ℕ

pub record UserSummary : Type 0 where
  pub username : String
  pub roles : List String
  pub permissions : List PermissionGrant

pub record TokenInfo : Type 0 where
  pub id : String
  pub username : String
  pub label : Option String
  pub permissions : List PermissionGrant
  pub expires_at : Option ℕ
  pub revoked : Bool
  pub issued_at : ℕ
  pub issued_by : String

pub record TokenIssued : Type 0 where
  pub token : String
  pub token_id : String
  pub username : String
  pub permissions : List PermissionGrant
  pub expires_at : Option ℕ

pub data PeerRes : Type 0 where
  dir_entries : List DirEntry → PeerRes
  file_stat : DirEntry → PeerRes
  file_chunk : FileChunk → PeerRes
  write_ack : FileWriteAck → PeerRes
  cpus : List CpuInfo → PeerRes
  disks : List DiskInfo → PeerRes
  interfaces : List InterfaceInfo → PeerRes
  auth_success : SessionInfo → PeerRes
  auth_failure : String → PeerRes
  user_created user_removed : String → PeerRes
  token_issued : TokenIssued → PeerRes
  token_revoked : String → PeerRes
  access_granted : String → List PermissionGrant → PeerRes
  users : List UserSummary → PeerRes
  tokens : List TokenInfo → PeerRes
  error : String → PeerRes
  permissions : List Permission → PeerRes

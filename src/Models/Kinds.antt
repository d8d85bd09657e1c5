-- ===== src/Models/Kinds.antt =====
-- The enumerations of src/models.py and src/schemas.py.
use titan_tyr.Prelude.{Eq, eq_by}

-- PART_SUBTYPES
pub data PartSubtype : Type 0 where
  software container image pod compose : PartSubtype
  deployment statefulset service ingress secret configmap job chart : PartSubtype

-- CONTRACT_SUBTYPES
pub data ContractSubtype : Type 0 where
  interaction binding connection : ContractSubtype

-- CONNECTION_TYPES
pub data ConnectionType : Type 0 where
  builds_from instantiates runs composes depends_on submodule serves_static : ConnectionType
  selects routes_to consumed_by : ConnectionType

-- The column `status` of the shift and deletion proposals.
pub data ProposalStatus : Type 0 where
  proposal accepted : ProposalStatus

-- The column `status` of `contract_versions` and `template_versions`.
pub data VersionStatus : Type 0 where
  active proposal : VersionStatus

-- AUTH_TOKEN_SCOPES
pub data Scope : Type 0 where
  read write revoke_agent : Scope

unfoldable pub PartSubtype-discrete : Discrete PartSubtype
PartSubtype-discrete = hlevel

unfoldable pub ContractSubtype-discrete : Discrete ContractSubtype
ContractSubtype-discrete = hlevel

unfoldable pub ConnectionType-discrete : Discrete ConnectionType
ConnectionType-discrete = hlevel

unfoldable pub ProposalStatus-discrete : Discrete ProposalStatus
ProposalStatus-discrete = hlevel

unfoldable pub VersionStatus-discrete : Discrete VersionStatus
VersionStatus-discrete = hlevel

unfoldable pub Scope-discrete : Discrete Scope
Scope-discrete = hlevel

instance abbrev pub PartSubtype-eq : Eq PartSubtype
PartSubtype-eq = eq_by PartSubtype-discrete

instance abbrev pub ContractSubtype-eq : Eq ContractSubtype
ContractSubtype-eq = eq_by ContractSubtype-discrete

instance abbrev pub ConnectionType-eq : Eq ConnectionType
ConnectionType-eq = eq_by ConnectionType-discrete

instance abbrev pub ProposalStatus-eq : Eq ProposalStatus
ProposalStatus-eq = eq_by ProposalStatus-discrete

instance abbrev pub VersionStatus-eq : Eq VersionStatus
VersionStatus-eq = eq_by VersionStatus-discrete

instance abbrev pub Scope-eq : Eq Scope
Scope-eq = eq_by Scope-discrete

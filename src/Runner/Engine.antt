-- ===== src/Runner/Engine.antt =====
-- Setting up the engine and loading a module (pvm/src/polkavm_runner.rs, lines 98 to 166).
use risc_v_rust.Base.{Bool, true, false, Option, some, [], String}
use risc_v_rust.Base.Bytes.{Bytes}
use risc_v_rust.Runner.Table.{Table}
use risc_v_rust.Runner.Exec.{Module}

pub data Result (A E : Type 0) : Type 0 where
  ok : A → Result A E
  err : E → Result A E

pub data BackendKind : Type 0 where
  compiler interpreter : BackendKind

pub data GasMeteringKind : Type 0 where
  sync async : GasMeteringKind

-- What the runner uses of the crate polkavm to set up an engine: its configurations, engines and parsed blobs are types
-- of its own, and an error is the text that is printed of it.
pub record Polkavm (I : Type 0) : Type 1 where
  pub Config : Type 0
  pub Engine : Type 0
  pub ModuleConfig : Type 0
  pub ProgramBlob : Type 0
  pub config_new : Config
  pub set_backend : Option BackendKind → Config → Config
  pub set_allow_experimental : Bool → Config → Config
  pub set_sandboxing_enabled : Bool → Config → Config
  pub engine_new : Config → Result Engine String
  pub parse : Bytes → Result ProgramBlob String
  pub module_config_default : ModuleConfig
  pub set_gas_metering : Option GasMeteringKind → ModuleConfig → ModuleConfig
  pub from_blob : Engine → ModuleConfig → ProgramBlob → Result (Module I) String

pub data SetupError : Type 0 where
  engine_error parse_failed create_failed : String → SetupError

module _ {I : Type 0} (polkavm : Polkavm I) where
  pub record PolkaVmExecutor : Type 0 where
    pub engine : polkavm.Engine
    pub storage : Table

  unfoldable pub new : Result PolkaVmExecutor SetupError
  new =
      let config = polkavm.set_backend (some BackendKind.compiler) polkavm.config_new in
      let config = polkavm.set_allow_experimental true config in
      let config = polkavm.set_sandboxing_enabled false config in
      elim (polkavm.engine_new config) [
        | err e ↦ err (engine_error e)
        | ok engine ↦ ok (record { engine = engine; storage = [] })
      ]

  unfoldable pub load_module : PolkaVmExecutor → Bytes → Result (Module I) SetupError
  load_module self bytecode = elim (polkavm.parse bytecode) [
    | err e ↦ err (parse_failed e)
    | ok blob ↦
        let module_config =
          polkavm.set_gas_metering (some GasMeteringKind.sync) polkavm.module_config_default in
        elim (polkavm.from_blob self.engine module_config blob) [
          | err e ↦ err (create_failed e)
          | ok loaded ↦ ok loaded
        ]
  ]

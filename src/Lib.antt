-- ===== src/Lib.antt =====
-- LEAPP exports policies that are written as Python code over tensors to compiled models, one for
-- each node of a graph, and runs the exported bundle. This library models the graph that an export
-- builds from its nodes, and the engine that runs a bundle.
--
-- The parts and their files:
--
-- - Common: lists, dictionaries in insertion order, results with exceptions, and "node/field"
--   keys. `Error` has the exception types that `_LeappLogger.fatal` (leapp/utils/logging.py)
--   and Python itself raise; logging has no other effect and is left out.
-- - Compat: `validate_connection_compatibility` of leapp/utils/tensor_description.py, which both
--   the graph and the engine call for an edge.
-- - Graph: `LeappGraph` of leapp/leapp_graph/leapp_graph.py. Graph has the objects it reads,
--   Graph/Build the connections (`_build_state_connections`, `_resolve_source_output`,
--   `_build_connections`), Graph/Ports the names of their ends, Graph/Io `_compile_graph_io`,
--   Graph/Validate `_validate_connection_compatibility` and `__init__`, Graph/Pipeline
--   `_finalize_connections`, `get_full_pipeline_description`, `get_feedback_initial_values` and
--   `get_graph_statistics`.
-- - Inference: `NodeManager` and `InferenceManager` of leapp/inference_manager.py. Inference has
--   the objects, Inference/Run `NodeManager.__call__` and `run_policy`, Inference/Routing
--   `_validate_and_create_inference_graph` with its validations, `_prepopulate_feedback_inputs`
--   and the lists of keys.
-- - Export: the nodes of `ExportManager` (leapp/export_manager.py): `_setup_new_node`,
--   `_assign_completion_index` with the setter of `node_index` (leapp/leapp_graph/leapp_node.py),
--   `reset_nodes` and `validate_nodes_ready_for_compile`. The indices order the graph's edges.
-- - Registry: the inputs and outputs that a node registers in leapp/leapp_graph/leapp_node.py:
--   `_validate_and_add_to_list`, `add_output`, `add_input`, `change_input_name` and
--   `change_output_name`. A list that a refusal leaves is returned beside the exception.
--   Registry/Reentry is another pass over a node, `validate_io_and_update_sources`.
-- - Structure: nested inputs and outputs of leapp/utils/tensor_description.py:
--   `flatten_io_structure`, `describe_io_helper` and `_resolve_tensor_descriptions`. A value is a
--   tensor, a list-like, a dict-like or another value; the keys of a mapping are the texts that an
--   f-string makes of them, and `str` of an index has as many digits of fuel as the index.
--   Structure/Packing has `packed_tensor_expr` and `unpacked_tensor_expr` of `ParameterFormat`,
--   and what the Python text that they write means: names are ASCII identifiers other than
--   keywords, and the keys of a display are literals with Python's escapes.
-- - Semantics: the annotations of leapp/utils/semantics.py. Semantics has the values that the code
--   tells apart, Semantics/Names `_normalize_element_names`, Semantics/Axes the checks of `Axis` and
--   of a tensor's axes, Semantics/Annotation `TensorSemantics` with `__post_init__` and `update`,
--   Semantics/Annotation/Output `to_dict`, Semantics/Quantity `_annotate` and the helpers.
-- - Session: `start`, `stop` and the checks of `compile_graph` (leapp/leapp.py), over the nodes of
--   Export, the lock of leapp/utils/tracing_lock.py and the flag of the patcher
--   (leapp/leapp_graph/datatypes/patching.py). A call returns the session that it leaves beside the
--   exception that it raises; `os.path`, and what the directory, the logger, a patch or the
--   restoring of the buffers of modules (torch's) raises, are arguments.
-- - Trace: the state of `TracedTensorNode` (leapp/leapp_graph/traced_node.py) that decides what is
--   fed back and what is captured: Trace/States the updates of declared states, Trace/Pairs the
--   pairs that Graph reads as `state_pairs`, Trace/Segments the queue of warp segments.
--   Trace/Updates is the call `update_state` of leapp/export_manager.py, over these and Registry.
-- - Visual: the picture of a graph as data, of packages/leapp-visualization (model.py), and
--   leapp/leapp_graph/visualization_adapter.py, which builds it from what Graph computes.
--   Visual/Layout and Visual/Geometry are layout.py and geometry.py, Visual/Render the part of
--   render.py before the file: the centers, rectangles and lines of the drawing. Visual/Geometry
--   has the records and the bounds, its children the sizes (Measure), `_expand_layout_centers`
--   (Spread), the order of a node's inputs (Order) and `resolve_geometry` (Resolve).
--
-- The graph's `get_full_pipeline_description` is written to the YAML file whose `pipeline` section
-- the engine reads: `data_flow` and `feedback_flow` map "node/output" to lists of "node/input".
--
-- State: what a method changes is passed as an argument and returned. Python objects that are
-- compared with `is` or used as keys carry an identity (`ident`); a node that a description refers
-- to is looked up under its name and compared by identity, as `_resolve_source_output` does.
-- `UNSET_NODE_INDEX` is `none`. The buffers of the engine (`value_dict`) hold tensors as values:
-- no operation that is modelled writes into a tensor, so sharing one between buffers is not seen.
-- Loops are structural recursions on the lists that the source iterates over, so no fuel is
-- used but for the digits of an index.
--
-- Torch and the compiled models are the record `Runtime`, a parameter. What the engine relies on
-- of a model is `Answers`: as many tensors as its description lists.
--
-- Python's floats are the record `Floats`, a parameter of which nothing is asked; as keys of a
-- dictionary they have an equality, so NaN is left out and -0.0 is 0.0. A literal is written in
-- tenths. The layout of fast_sugiyama is a parameter, with `IsSugiyama` for what the code relies on:
-- it gives a position to each vertex of an edge and to nothing else.
--
-- Not modelled: devices, the YAML and safetensors files, the pixels of a drawing
-- (png_renderer.py), and the export itself (tracing, backends, custom operators).
pub mod Common
pub mod Compat
pub mod Export
pub mod Graph
pub mod Inference
pub mod Registry
pub mod Semantics
pub mod Session
pub mod Structure
pub mod Trace
pub mod Visual
